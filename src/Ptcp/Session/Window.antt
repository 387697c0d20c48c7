-- ===== src/Ptcp/Session/Window.antt =====
-- The window of packets not yet acknowledged: its bound, and what an acknowledgement takes out.
use dahua_p2p_bridge.Common.{
  ℕ, ◌+◌, ◌-◌, ◌^◌, ◌≤◌, ◌<◌, ◌≡◌, refl, Bool-cases, inl, inr, List, [], ◌∷◌, map, length,
  length-append, ltb, leb, ◌==◌, ◌||◌, if◌then◌else◌, arith,
}
use dahua_p2p_bridge.Ptcp.Wire.{PtcpBody, PtcpPacket, len}
use dahua_p2p_bridge.Ptcp.Sequence.{sequence_after, sequence_after-offset}
use dahua_p2p_bridge.Ptcp.Session.{
  PtcpSession, TrackedPacket, send, track, prune, packet_end, max_sent_window, pop_front,
}
use dahua_p2p_bridge.Ptcp.Stream.{stream_bytes, counter, IsStream, counter_injective}

abbrev pub tracked : List TrackedPacket → List PtcpPacket
tracked = map λ t. t.packet

-- An acknowledgement by bytes: of the next `n` bytes, packets that fit wholly leave at the front.
abbrev pub drop_acknowledged : ℕ → List TrackedPacket → List TrackedPacket
drop_acknowledged n [] = []
drop_acknowledged n (t ∷ window) =
    let rest = drop_acknowledged (n - len (t.packet).body) window in
    if leb (len (t.packet).body) n then rest else t ∷ window

-- The test of the loop at positions `a` (the end of the packet) and `b` (the acknowledgement).
acknowledged_test :
    (base a b : ℕ)
    → a < 2 ^ 31
    → b < 2 ^ 31
    → (counter base a == counter base b || sequence_after (counter base b) (counter base a))
      ≡ leb a b
acknowledged_test base a b ha hb =
    rw (sequence_after-offset base b a hb ha) (ground (arith, counter_injective base a b ha hb))

-- For a window that tracks a stream from position `a`, an acknowledgement of position `b` takes out
-- exactly the packets that end there or before, and an old one (`b` at most `a`) takes out none.
pub prune-drop_acknowledged :
    (base a b : ℕ) (window : List TrackedPacket)
    → IsStream base a (tracked window)
    → a + stream_bytes (tracked window) < 2 ^ 31
    → b < 2 ^ 31
    → prune (counter base b) window ≡ drop_acknowledged (b - a) window
unfolding prune
prune-drop_acknowledged base a b [] s h hb = refl
prune-drop_acknowledged base a b (t ∷ window) s h hb =
    let n = len (t.packet).body in
    let end_at : packet_end t.packet ≡ counter base (a + n) = omega (arith, s.0) in
    let test = acknowledged_test base (a + n) b (omega arith) hb in
    let ih = prune-drop_acknowledged base (a + n) b window s.2 (omega arith) hb in
    let regroup : b - (a + n) ≡ b - a - n = omega arith in
    let same : leb (a + n) b ≡ leb n (b - a) = ground (arith, s.1) in
    rw (end_at, test, same, ih, regroup)

length-pop_front : (window : List TrackedPacket) → length (pop_front window) ≡ length window - 1
length-pop_front [] = omega arith
length-pop_front (t ∷ window) = omega arith

length-track-le :
    (now : ℕ) (p : PtcpPacket) (window : List TrackedPacket)
    → length window ≤ max_sent_window
    → length (track now p window) ≤ max_sent_window
unfolding track
length-track-le now p window h = rw length-append (ground (arith, length-pop_front window))

-- The window never holds more than 2048 packets.
pub send-window-le :
    (now : ℕ) (s : PtcpSession) (body : PtcpBody)
    → length s.sent_window ≤ max_sent_window
    → length ((send now s body).0).sent_window ≤ max_sent_window
unfolding send
send-window-le now s body h = elim (Bool-cases (ltb 0 (len body))) [
  | inl full ↦ rw full (length-track-le now _ s.sent_window h)
  | inr bare ↦ rw bare h
]

pub length-prune-le :
    (b : ℕ) (window : List TrackedPacket) → length (prune b window) ≤ length window
unfolding prune
length-prune-le b [] = omega arith
length-prune-le b (t ∷ window) = ground (arith, length-prune-le b window)
