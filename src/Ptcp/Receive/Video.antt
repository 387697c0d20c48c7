-- ===== src/Ptcp/Receive/Video.antt =====
-- Video behind a gap: what `recv` does with it once the gap is older than the timeout.
use dahua_p2p_bridge.Common.{
  ℕ, ◌-◌, ◌≤◌, ◌≡◌, ◌≢◌, refl, sym, ◌∙◌, inl, inr, true, false, some, List, ◌∷◌, length, ne→==,
  arith,
}
use mathlib.Core.Bool.{false≢true}
use dahua_p2p_bridge.Common.HashMap.{
  insert, remove, contains_key, In-lookup, In-lookup-some, In-insert_self,
}
use dahua_p2p_bridge.Ptcp.Wire.{PtcpPacket, len}
use dahua_p2p_bridge.Ptcp.Sequence.{sequence_after}
use dahua_p2p_bridge.Ptcp.Session.{PtcpSession, packet_end, acknowledge_sent}
use dahua_p2p_bridge.Ptcp.Receive.{
  Readings, recv, recv_beyond_gap, note_header, store_beyond_gap, skips_gap, skip_to,
  drain_contiguous,
}
use dahua_p2p_bridge.Ptcp.Receive.Drain.{Keyed, drain_loop-front}
use dahua_p2p_bridge.Ptcp.Receive.Skip.{IsNearest, next_start-IsNearest}
use dahua_p2p_bridge.Ptcp.Receive.Order.{Keyed-insert, with_packet}

-- What is delivered starts ahead of the old receive offset: the bytes between are skipped.
abbrev pub SkipsBytes : PtcpSession → List PtcpPacket → Type 0
SkipsBytes s ready =
    (q : PtcpPacket) × (rest : List PtcpPacket) × (ready ≡ q ∷ rest)
    × (sequence_after q.sent s.recv ≡ true)

-- A drain that starts at a pending packet ahead delivers it first.
drain_at_nearest :
    (now start : ℕ) (s t : PtcpSession) (p : PtcpPacket)
    → Keyed (with_packet s p)
    → IsNearest s.recv (with_packet s p) start
    → t.recv ≡ start
    → t.pending ≡ with_packet s p
    → SkipsBytes s (drain_contiguous now t).1
unfolding drain_contiguous insert
drain_at_nearest now start s t p keyed n at same =
    let (q, found) = In-lookup-some start n.packet (with_packet s p) n.is_pending in
    let (rest, e) =
      drain_loop-front (length (remove p.sent s.pending)) start (with_packet s p) q found in
    let key : start ≡ q.sent = keyed (start, q) (In-lookup start q (with_packet s p) found) in
    (q, rest, rw (at, same) e, rw (← key) n.is_ahead)

-- A packet that `recv` stores behind a gap: it has bytes, they are ahead of the receive offset, and
-- it does not wait already.
pub record IsBeyondGap (s : PtcpSession) (p : PtcpPacket) : Type 0 where
  pub has_bytes : len p.body ≢ 0
  pub off : p.sent ≢ s.recv
  pub starts_ahead : sequence_after p.sent s.recv ≡ true
  pub ends_ahead : sequence_after (packet_end p) s.recv ≡ true
  pub is_new : contains_key p.sent s.pending ≡ false

recv-IsBeyondGap :
    (r : Readings) (s : PtcpSession) (p : PtcpPacket)
    → IsBeyondGap s p
    → recv r s p ≡ recv_beyond_gap r (note_header s p) p
unfolding recv note_header acknowledge_sent
recv-IsBeyondGap r s p b =
    rw (ne→== _ _ b.has_bytes, ne→== _ _ b.off, b.starts_ahead, b.ends_ahead, b.is_new)

-- Once a gap is older than the timeout and skipping is allowed, the next packet beyond the gap,
-- video or not, makes `recv` skip bytes: delivery goes on at a packet ahead of the missing ones.
pub recv_timeout_skips :
    (r : Readings) (s : PtcpSession) (p : PtcpPacket) (opened : ℕ)
    → Keyed s.pending
    → IsBeyondGap s p
    → s.allow_gap_skip ≡ true
    → s.gap_since ≡ some opened
    → r.gap_timeout ≤ r.gap_tested - opened
    → SkipsBytes s (recv r s p).1
unfolding recv_beyond_gap skip_to skips_gap store_beyond_gap note_header acknowledge_sent
recv_timeout_skips r s p opened keyed b allowed since late =
    elim (next_start-IsNearest s.recv (with_packet s p)) [
      | inl (e, far) ↦
          absurd (
            false≢true (sym (far (p.sent, p) (In-insert_self p.sent p s.pending)) ∙ b.starts_ahead))
      | inr (start, e, n) ↦
          rw (recv-IsBeyondGap r s p b, expired)
            (rw e (drain_at_nearest r.drained start s _ p (Keyed-insert s p keyed) n refl refl))
    ]
  where
    expired : skips_gap r (store_beyond_gap r (note_header s p) p) p ≡ true
    expired = rw (allowed, since) (ground arith)
