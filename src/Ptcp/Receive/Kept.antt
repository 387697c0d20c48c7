-- ===== src/Ptcp/Receive/Kept.antt =====
-- One call of `recv` without permission to skip loses no packet of a stream: what has arrived is
-- delivered, or waits under its own counter.
use dahua_p2p_bridge.Common.{
  ℕ, ◌^◌, ◌<◌, ◌≡◌, ◌≢◌, sym, ap, ◌∙◌, ◌⊎◌, inl, inr, some, List, ◌++◌, append-nil, length, In,
  In-append_cases, In-append_left, In-append_right, arith, ◌==◌, Bool-cases, ==→eq, ==_refl,
}
use mathlib.Core.Path.{subst}
use mathlib.Core.Bool.{false≢true}
use dahua_p2p_bridge.Common.HashMap.{lookup, insert, lookup-insert, lookup-contains_key, In-lookup}
use dahua_p2p_bridge.Ptcp.Wire.{PtcpPacket, len}
use dahua_p2p_bridge.Ptcp.Session.{PtcpSession, acknowledge_sent}
use dahua_p2p_bridge.Ptcp.Stream.{stream_bytes, IsStream, position, sent_injective}
use dahua_p2p_bridge.Ptcp.Receive.{Readings, recv, note_header, drain_contiguous, store_beyond_gap}
use dahua_p2p_bridge.Ptcp.Receive.Drain.{drain_loop-keeps}
use dahua_p2p_bridge.Ptcp.Receive.Cases.{
  recv_cases, stored_at_front, recv_beyond_gap_strict, IsSetAside, no_bytes, stale, old,
  waits_already,
}
use dahua_p2p_bridge.Ptcp.Receive.Progress.{Progress, Arrives, left_after}

-- The packet `q` is delivered, or pending.
abbrev pub Kept : PtcpPacket → PtcpSession × List PtcpPacket → Type 0
Kept q (s, done) = In q done ⊎ (lookup q.sent s.pending ≡ some q)

-- A drain keeps what was kept.
drain_contiguous-Kept :
    (now : ℕ) (s : PtcpSession) (done : List PtcpPacket) (q : PtcpPacket)
    → Kept q (s, done)
    → let (s', ready) = drain_contiguous now s in Kept q (s', done ++ ready)
unfolding drain_contiguous
drain_contiguous-Kept now s done q (inl i) = inl (In-append_left q done _ i)
drain_contiguous-Kept now s done q (inr l) =
    elim (drain_loop-keeps (length s.pending) s.recv s.pending q.sent q l) [
      | inl i ↦ inl (In-append_right q done _ i)
      | inr l' ↦ inr l'
    ]

module _ (base : ℕ) (ps : List PtcpPacket) (stream : IsStream base 0 ps)
    (small : stream_bytes ps < 2 ^ 31) (s : PtcpSession) (p : PtcpPacket) (done : List PtcpPacket)
    (g : Progress base ps s done) where
  -- Storing a packet of the stream keeps what was kept, and the packet.
  insert_keeps :
      (q : PtcpPacket)
      → In p ps
      → In q ps
      → (q ≡ p) ⊎ Kept q (s, done)
      → In q done ⊎ (lookup q.sent (insert p.sent p s.pending) ≡ some q)
  insert_keeps q i j (inl e) = inr (rw (e, lookup-insert, ==_refl p.sent))
  insert_keeps q i j (inr (inl k)) = inl k
  insert_keeps q i j (inr (inr l)) = elim (Bool-cases (p.sent == q.sent)) [
    | inl same ↦
        let e = sent_injective base 0 ps p q stream (omega arith) i j (==→eq _ _ same) in
        inr (rw (lookup-insert, same) (ap some e))
    | inr other ↦ inr (rw (lookup-insert, other) l)
  ]

  -- A packet of the stream that is set aside has been delivered, or waits already.
  aside-Kept : In p ps → IsSetAside s p → Kept p (s, done)
  aside-Kept i (no_bytes e) =
      let q = position base 0 ps p stream i in absurd (omega (arith, q.has_bytes))
  aside-Kept i (stale off before) =
      elim (In-append_cases p done g.held.left (subst (In p) g.held.split i)) [
        | inl d ↦ inl d
        | inr l ↦
            let after = (left_after base ps stream small s done g.held p l).0 off in
            absurd (false≢true (sym before ∙ after))
      ]
  aside-Kept i (old past) =
      elim (In-append_cases p done g.held.left (subst (In p) g.held.split i)) [
        | inl d ↦ inl d
        | inr l ↦
            let after = (left_after base ps stream small s done g.held p l).1 in
            absurd (false≢true (sym past ∙ after))
      ]
  aside-Kept i (waits_already e) =
      let (v, found) = lookup-contains_key p.sent s.pending e in
      let (l, key) = g.held.waiting (p.sent, v) (In-lookup p.sent v s.pending found) in
      let j = subst (In v) (sym g.held.split) (In-append_right v done g.held.left l) in
      let same = sent_injective base 0 ps p v stream (omega arith) i j key in
      inr (found ∙ ap some (sym same))

  -- After `recv` the packet that arrived is delivered or pending, and so is all that was so before.
  pub recv-Kept :
      (r : Readings) (q : PtcpPacket)
      → Arrives ps p
      → In q ps
      → (q ≡ p) ⊎ Kept q (s, done)
      → let (s', ready) = recv r s p in Kept q (s', done ++ ready)
  unfolding note_header acknowledge_sent store_beyond_gap
  recv-Kept r q arrives j k =
      recv_cases (λ (s', ready). Kept q (s', done ++ ready)) r s p
        (λ aside.
          rw append-nil
            (elim k [ inl e ↦ rw e (aside-Kept (subst (λ x. In x ps) e j) aside) | inr k' ↦ k' ]))
        (λ has_bytes at.
          drain_contiguous-Kept r.drained (stored_at_front (note_header s p) p) done q
            (insert_keeps q (on_stream has_bytes) j k))
        (λ has_bytes off after fresh.
          rw (recv_beyond_gap_strict r (note_header s p) p g.held.strict, append-nil)
            (insert_keeps q (on_stream has_bytes) j k))
    where
      on_stream : len p.body ≢ 0 → In p ps
      on_stream h = elim arrives [ inl i ↦ i | inr e ↦ absurd (h e) ]
