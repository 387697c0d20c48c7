-- ===== src/Ptcp/Receive/OnStream.antt =====
-- The loop of `drain_contiguous` when the pending packets belong to a stream: it takes the next
-- packets of the stream.
use dahua_p2p_bridge.Common.{
  ℕ, zero, suc, ◌+◌, ◌^◌, ◌<◌, ◌≡◌, refl, sym, ap, ◌∙◌, inl, inr, some, Option-cases, List, [], ◌∷◌,
  ◌++◌, In, arith,
}
use dahua_p2p_bridge.Common.Words.{as_u32, wrapping_add}
use dahua_p2p_bridge.Common.HashMap.{HashMap, lookup, remove, In-remove, In-lookup}
use dahua_p2p_bridge.Ptcp.Wire.{PtcpPacket, len}
use dahua_p2p_bridge.Ptcp.Receive.{Drained, drain_loop}
use dahua_p2p_bridge.Ptcp.Stream.{stream_bytes, counter, IsStream, In-front}

-- Every pending packet is one of `rest`, under its own counter.
abbrev pub Waiting : List PtcpPacket → HashMap PtcpPacket → Type 0
Waiting rest pending = (e : ℕ × PtcpPacket) → In e pending → In e.1 rest × (e.0 ≡ (e.1).sent)

-- What a drain at position `a` of a stream leaves of it.
pub record Drains (base a : ℕ) (rest : List PtcpPacket) (d : Drained) : Type 0 where
  pub left : List PtcpPacket
  pub split : rest ≡ d.ready ++ left
  pub recv_at : d.recv ≡ counter base (a + stream_bytes d.ready)
  pub waiting : Waiting left d.pending

Drains-nothing :
    (base a recv : ℕ) (pending : HashMap PtcpPacket) (rest : List PtcpPacket)
    → recv ≡ counter base a
    → Waiting rest pending
    → Drains base a rest (record { recv = recv; pending = pending; ready = [] })
Drains-nothing base a recv pending rest e w = record {
  left = rest;
  split = refl;
  recv_at = omega arith;
  waiting = w;
}

-- The packet that waits at the counter of the front is the front.
waiting_front :
    (base a : ℕ) (x p : PtcpPacket) (ps : List PtcpPacket) (recv : ℕ) (pending : HashMap PtcpPacket)
    → IsStream base a (x ∷ ps)
    → a + stream_bytes (x ∷ ps) < 2 ^ 31
    → recv ≡ counter base a
    → Waiting (x ∷ ps) pending
    → lookup recv pending ≡ some p
    → p ≡ x
waiting_front base a x p ps recv pending s h e w found =
    let (i, key) = w (recv, p) (In-lookup recv p pending found) in
    In-front base a x ps p s h i (sym key ∙ e)

Waiting-remove :
    (x : PtcpPacket) (ps : List PtcpPacket) (recv : ℕ) (pending : HashMap PtcpPacket)
    → x.sent ≡ recv
    → Waiting (x ∷ ps) pending
    → Waiting ps (remove recv pending)
Waiting-remove x ps recv pending same w e i =
    let (j, other) = In-remove e recv pending i in
    let (k, key) = w e j in
    elim k [
      | inl front ↦ absurd (other (key ∙ ap (λ (q : PtcpPacket). q.sent) front ∙ same))
      | inr k' ↦ (k', key)
    ]

-- On a stream the drain takes packets off the front of what is left, and stops at the end of them.
pub drain_loop-Drains :
    (base a fuel recv : ℕ) (pending : HashMap PtcpPacket) (rest : List PtcpPacket)
    → IsStream base a rest
    → a + stream_bytes rest < 2 ^ 31
    → recv ≡ counter base a
    → Waiting rest pending
    → Drains base a rest (drain_loop fuel recv pending)
unfolding drain_loop
drain_loop-Drains base a zero recv pending rest s h e w =
    Drains-nothing base a recv pending rest e w
drain_loop-Drains base a (suc fuel) recv pending [] s h e w =
    elim (Option-cases (lookup recv pending)) [
      | inl l ↦ rw (l, drain_loop) (Drains-nothing base a recv pending [] e w)
      | inr (p, l) ↦ absurd ((w (recv, p) (In-lookup recv p pending l)).0)
    ]
drain_loop-Drains base a (suc fuel) recv pending (x ∷ ps) s h e w =
    elim (Option-cases (lookup recv pending)) [
      | inl l ↦ rw (l, drain_loop) (Drains-nothing base a recv pending (x ∷ ps) e w)
      | inr (p, l) ↦
          let same = waiting_front base a x p ps recv pending s h e w l in
          rw (l, drain_loop, same)
            (let d =
                drain_loop-Drains base (a + len x.body) fuel
                  (wrapping_add recv (as_u32 (len x.body))) (remove recv pending) ps s.2
                  (omega arith) (omega arith) (Waiting-remove x ps recv pending (s.0 ∙ sym e) w) in
              record {
                left = d.left;
                split = ap (◌∷◌ x) d.split;
                recv_at = d.recv_at ∙ ap (counter base) (omega arith);
                waiting = d.waiting;
              })
    ]
