-- ===== src/Ptcp/Tests/Receive.antt =====
-- The theorems about a session at concrete inputs.
use dahua_p2p_bridge.Common.{
  Bool, ◌==◌, ◌*◌, ◌≤◌, ℕ, ◌+◌, ◌-◌, ◌^◌, ◌<◌, ◌≡◌, refl, inl, inr, true, none, some, List, [], ◌∷◌,
  ◌++◌, In, All, map, ok, arith,
}
use dahua_p2p_bridge.Common.HashMap.{lookup, contains_key}
use dahua_p2p_bridge.Ptcp.Wire.{PtcpBody, PtcpPacket, payload, heartbeat, empty, len}
use dahua_p2p_bridge.Ptcp.Wire.RoundTrip.{IsWireBody, IsWirePacket}
use dahua_p2p_bridge.Ptcp.Sequence.{sequence_after}
use dahua_p2p_bridge.Ptcp.Session.{
  PtcpSession, TrackedPacket, from_state, send, prune, set_allow_gap_skip, from_millis,
}
use dahua_p2p_bridge.Ptcp.Session.Send.{
  send_all, content, body_bytes, HasCounters, send_all-IsStream, send_all-IsWirePacket,
}
use dahua_p2p_bridge.Ptcp.Session.Window.{tracked, drop_acknowledged, prune-drop_acknowledged}
use dahua_p2p_bridge.Ptcp.Stream.{stream_bytes, counter, IsStream}
use dahua_p2p_bridge.Ptcp.Receive.{Readings, recv, drain_loop}
use dahua_p2p_bridge.Ptcp.Receive.Drain.{drain_loop-lookup, Keyed}
use dahua_p2p_bridge.Ptcp.Receive.Order.{Delivers, recv-Delivers}
use dahua_p2p_bridge.Ptcp.Receive.Video.{SkipsBytes, IsBeyondGap, recv_timeout_skips}
use dahua_p2p_bridge.Ptcp.Receive.Strict.{
  Arrival, recv_all, strict_session, recv_all-prefix, recv_all_complete,
}
use dahua_p2p_bridge.Ptcp.Retransmit.Budget.{HasRetries, budget, count, tick_all, tick_all-budget}
use dahua_p2p_bridge.Ptcp.Invariant.{IsValid}
use dahua_p2p_bridge.Ptcp.Invariant.Run.{start, next, sends, receives, Reach-from_state-IsValid}
use dahua_p2p_bridge.Ptcp.Transfer.{
  recv_datagrams, datagrams, content_bodies, transfer_prefix, transfer_complete,
}

abbrev at_instant : ℕ → Readings
at_instant now = record {
  gap_timeout = from_millis 2000;
  gap_opened = now;
  gap_tested = now;
  drained = now;
}

abbrev video : PtcpBody
video = payload (record { realm = 7; bytes = 1 ∷ 2 ∷ [] })

-- The sender's counter wraps inside the first packet: it starts 8 bytes before 2 ^ 32.
abbrev base : ℕ
base = 0xffff_fff8

abbrev sender : PtcpSession
sender = from_state 0 base 0 0 0 0

abbrev bodies : List (ℕ × PtcpBody)
bodies = (0, heartbeat) ∷ (0, empty) ∷ (0, video) ∷ []

abbrev first : PtcpPacket
first = record { sent = base; recv = 0; pid = 0xffff; lmid = 0; rmid = 0; body = heartbeat }

abbrev second : PtcpPacket
second = record { sent = 4; recv = 0; pid = 0xfffe; lmid = 1; rmid = 0; body = empty }

abbrev third : PtcpPacket
third = record { sent = 4; recv = 0; pid = 0xfffe; lmid = 2; rmid = 0; body = video }

sent_packets : (send_all sender bodies).1 ≡ first ∷ second ∷ third ∷ []
unfolding send_all send from_state len
sent_packets = refl

-- The second packet with content comes first, and twice.
abbrev arrivals : List Arrival
arrivals =
    (at_instant 1, third)
    ∷ (at_instant 2, third)
    ∷ (at_instant 3, second)
    ∷ (at_instant 4, first)
    ∷ []

sender-HasCounters : HasCounters sender
unfolding from_state
sender-HasCounters = omega arith

bodies_on_wire : All (λ b. IsWireBody b.1) bodies
bodies_on_wire = (tt, (tt, ((omega arith, omega arith), tt)))

abbrev Sent : Type 0
Sent = All (λ a. In a.1 (send_all sender bodies).1) arrivals

arrivals_sent : Sent
unfolding send_all send from_state len
arrivals_sent = (inr (inr (inl refl)), (inr (inr (inl refl)), (inr (inl refl), (inl refl, tt))))

abbrev receiver : PtcpSession
receiver = strict_session 0 0 base 0 0 0

bodies_small : body_bytes bodies < 2 ^ 31
unfolding len
bodies_small = omega arith

transfer_prefix_example :
    (out : PtcpSession × List PtcpPacket) × (rest : List PtcpBody) × (recv_datagrams receiver
        (datagrams arrivals)
      ≡ ok out)
    × (content_bodies bodies ≡ map (λ p. p.body) out.1 ++ rest)
unfolding from_state
transfer_prefix_example =
    transfer_prefix sender bodies arrivals 0 0 0 0 0 sender-HasCounters bodies_on_wire bodies_small
      arrivals_sent

all_arrive :
    (q : PtcpPacket) → In q (content (send_all sender bodies).1) → In q (map (λ a. a.1) arrivals)
unfolding send_all send from_state len
all_arrive q (inl e) = inr (inr (inr (inl e)))
all_arrive q (inr (inl e)) = inl e
all_arrive q (inr (inr i)) = absurd i

transfer_complete_example :
    (out : PtcpSession × List PtcpPacket) × (recv_datagrams receiver (datagrams arrivals) ≡ ok out)
    × (map (λ p. p.body) out.1 ≡ content_bodies bodies)
unfolding from_state
transfer_complete_example =
    transfer_complete sender bodies arrivals 0 0 0 0 0 sender-HasCounters bodies_on_wire
      bodies_small arrivals_sent all_arrive

abbrev ps : List PtcpPacket
ps = first ∷ third ∷ []

ps-IsStream : IsStream base 0 ps
unfolding len
ps-IsStream = omega arith

ps_small : stream_bytes ps < 2 ^ 31
unfolding len
ps_small = omega arith

-- Only the later packet has arrived, so nothing has been delivered.
abbrev out_of_order : List Arrival
out_of_order = (at_instant 1, third) ∷ (at_instant 2, second) ∷ []

recv_all-prefix_example :
    let (s', delivered) = recv_all receiver out_of_order in
    (rest : List PtcpPacket) × (ps ≡ delivered ++ rest)
    × (s'.recv ≡ counter base (stream_bytes delivered))
recv_all-prefix_example =
    recv_all-prefix 0 0 base 0 0 0 ps out_of_order (omega arith) ps-IsStream ps_small
      (inl (inr (inl refl)), (inr (unfold len in refl), tt))

recv_all_complete_example : (recv_all receiver arrivals).1 ≡ ps
recv_all_complete_example =
    recv_all_complete 0 0 base 0 0 0 ps arrivals (omega arith) ps-IsStream ps_small
      (
        inl (inr (inl refl)),
        (inl (inr (inl refl)), (inr (unfold len in refl), (inl (inl refl), tt))),
      )
      every
  where
    every : (q : PtcpPacket) → In q ps → In q (map (λ a. a.1) arrivals)
    every q (inl e) = inr (inr (inr (inl e)))
    every q (inr (inl e)) = inl e
    every q (inr (inr i)) = absurd i

-- One video packet waits behind a gap that opened at the instant 0.
abbrev waiting : PtcpSession
waiting = record {
  sent = 0;
  recv = base;
  count = 0;
  id = 0;
  rmid = 0;
  pending = (4, third) ∷ [];
  gap_packets = 1;
  gap_since = some 0;
  last_progress = 0;
  sent_window = [];
  allow_gap_skip = true;
}

abbrev fourth : PtcpPacket
fourth = record { sent = 18; recv = 0; pid = 0xfffd; lmid = 3; rmid = 0; body = video }

waiting-Keyed : Keyed waiting.pending
waiting-Keyed e (inl same) = rw same refl
waiting-Keyed e (inr i) = absurd i

recv-Delivers_example : Delivers (at_instant 1) waiting first (recv (at_instant 1) waiting first)
recv-Delivers_example = recv-Delivers (at_instant 1) waiting first waiting-Keyed

fourth-IsBeyondGap : IsBeyondGap waiting fourth
unfolding len sequence_after contains_key
fourth-IsBeyondGap = record {
  has_bytes = λ e. absurd (omega arith);
  off = λ e. absurd (omega arith);
  starts_ahead = refl;
  ends_ahead = refl;
  is_new = refl;
}

-- Two seconds later the next video packet makes the session skip the missing 12 bytes.
recv_timeout_skips_example :
    SkipsBytes waiting (recv (at_instant (from_millis 2000)) waiting fourth).1
recv_timeout_skips_example =
    recv_timeout_skips (at_instant (from_millis 2000)) waiting fourth 0 waiting-Keyed
      fourth-IsBeyondGap refl refl (omega arith)

drain_loop-lookup_example : let d = drain_loop 1 4 waiting.pending in lookup d.recv d.pending ≡ none
drain_loop-lookup_example = drain_loop-lookup 1 4 waiting.pending (omega arith)

abbrev window : List TrackedPacket
window =
    record { packet = first; last_sent = 0; retries = 0 }
    ∷ record { packet = third; last_sent = 0; retries = 50 }
    ∷ []

-- The acknowledgement of the first 12 bytes takes out the first packet.
prune-drop_acknowledged_example : prune (counter base 12) window ≡ drop_acknowledged (12 - 0) window
unfolding len
prune-drop_acknowledged_example =
    prune-drop_acknowledged base 0 12 window ps-IsStream ps_small (omega arith)

abbrev unacknowledged : PtcpSession
unacknowledged = record waiting { sent_window = window }

abbrev is_first : PtcpPacket → Bool
is_first p = p.sent == base

tick_all-budget_example :
    let (s', due) = tick_all unacknowledged (from_millis 600 ∷ from_millis 1200 ∷ []) in
    HasRetries s'.sent_window
    × (tracked s'.sent_window ≡ tracked window)
    × (budget is_first window ≡ budget is_first s'.sent_window + count is_first due)
    × (count is_first due ≤ 50 * count is_first (tracked window))
tick_all-budget_example =
    tick_all-budget is_first (from_millis 600 ∷ from_millis 1200 ∷ []) unacknowledged (omega arith)

send_all-IsStream_example : IsStream base 0 (content (send_all sender bodies).1)
send_all-IsStream_example = send_all-IsStream bodies sender base 0 (unfold from_state in refl)

send_all-IsWirePacket_example : All IsWirePacket (send_all sender bodies).1
send_all-IsWirePacket_example =
    send_all-IsWirePacket bodies sender sender-HasCounters bodies_on_wire

first-IsWirePacket : IsWirePacket first
first-IsWirePacket = record {
  sent_fits = omega arith;
  recv_fits = omega arith;
  pid_fits = omega arith;
  lmid_fits = omega arith;
  rmid_fits = omega arith;
  body_fits = tt;
}

abbrev fresh : PtcpSession
fresh = set_allow_gap_skip (from_state 0 0 base 0 0 0) true

abbrev later : PtcpSession
later = (send 2 (recv (at_instant 1) fresh first).0 empty).0

Reach-from_state-IsValid_example : IsValid later
Reach-from_state-IsValid_example =
    Reach-from_state-IsValid 0 0 base 0 0 0 true later (omega arith) (omega arith) (omega arith)
      (omega arith) (omega arith)
      (next (next start (receives (at_instant 1) fresh first first-IsWirePacket)) (sends 2 _ empty))
