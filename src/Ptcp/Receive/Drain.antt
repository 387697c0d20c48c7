-- ===== src/Ptcp/Receive/Drain.antt =====
-- The loop of `drain_contiguous`: it ends, and it takes out the run of packets at the receive offset.
use dahua_p2p_bridge.Common.{
  ℕ, zero, suc, ◌+◌, ◌≤◌, ◌≡◌, refl, sym, ◌⊎◌, inl, inr, Bool-cases, none, some, Option-cases, List,
  [], ◌∷◌, length, In, arith, ◌==◌, ==→eq,
}
use dahua_p2p_bridge.Common.Words.{IsU32, as_u32, wrapping_add}
use dahua_p2p_bridge.Common.HashMap.{
  HashMap, lookup, remove, lookup-remove, length-remove-lt, In-remove, In-lookup,
}
use dahua_p2p_bridge.Ptcp.Wire.{PtcpPacket, len}
use dahua_p2p_bridge.Ptcp.Receive.{drain_loop}

-- With as much fuel as entries the loop ends by its own test: no packet waits at the new offset.
pub drain_loop-lookup :
    (fuel recv : ℕ) (pending : HashMap PtcpPacket)
    → length pending ≤ fuel
    → let d = drain_loop fuel recv pending in lookup d.recv d.pending ≡ none
unfolding drain_loop
drain_loop-lookup zero recv [] h = unfold lookup in refl
drain_loop-lookup zero recv (e ∷ m) h = absurd (omega arith)
drain_loop-lookup (suc fuel) recv pending h = elim (Option-cases (lookup recv pending)) [
  | inl e ↦ rw (e, drain_loop) e
  | inr (p, e) ↦
      rw (e, drain_loop)
        (drain_loop-lookup fuel (wrapping_add recv (as_u32 (len p.body))) (remove recv pending)
          (omega (arith, length-remove-lt recv pending p e)))
]

-- A pending packet comes out or stays.
pub drain_loop-keeps :
    (fuel recv : ℕ) (pending : HashMap PtcpPacket) (k : ℕ) (q : PtcpPacket)
    → lookup k pending ≡ some q
    → let d = drain_loop fuel recv pending in In q d.ready ⊎ (lookup k d.pending ≡ some q)
unfolding drain_loop
drain_loop-keeps zero recv pending k q h = inr h
drain_loop-keeps (suc fuel) recv pending k q h = elim (Option-cases (lookup recv pending)) [
  | inl e ↦ rw (e, drain_loop) (inr h)
  | inr (p, e) ↦
      rw (e, drain_loop)
        (elim (Bool-cases (recv == k)) [
          | inl same ↦ inl (inl (ground (arith, ==→eq recv k same)))
          | inr other ↦
              elim (drain_loop-keeps fuel (wrapping_add recv (as_u32 (len p.body)))
                (remove recv pending) k q (rw (lookup-remove, other) h)) [
                  | inl i ↦ inl (inr i)
                  | inr l ↦ inr l
                ]
        ])
]

-- What stays pending was pending.
pub drain_loop-subset :
    (fuel recv : ℕ) (pending : HashMap PtcpPacket) (e : ℕ × PtcpPacket)
    → In e (drain_loop fuel recv pending).pending
    → In e pending
unfolding drain_loop
drain_loop-subset zero recv pending e i = i
drain_loop-subset (suc fuel) recv pending e i = elim (Option-cases (lookup recv pending)) [
  | inl l ↦ rw (l, drain_loop) at i
  | inr (p, l) ↦
      (In-remove e recv pending (
        drain_loop-subset fuel (wrapping_add recv (as_u32 (len p.body))) (remove recv pending) e
          (rw (l, drain_loop) at i))).0
]

-- Each packet that comes out leaves the pending ones, and the receive offset is still a u32.
pub drain_loop-length :
    (fuel recv : ℕ) (pending : HashMap PtcpPacket)
    → IsU32 recv
    → let d = drain_loop fuel recv pending in
      (length d.pending + length d.ready ≤ length pending) × IsU32 d.recv
unfolding drain_loop
drain_loop-length zero recv pending h = omega arith
drain_loop-length (suc fuel) recv pending h = elim (Option-cases (lookup recv pending)) [
  | inl l ↦ rw (l, drain_loop) (omega arith)
  | inr (p, l) ↦
      rw (l, drain_loop)
        (omega (
          arith,
          length-remove-lt recv pending p l,
          drain_loop-length fuel (wrapping_add recv (as_u32 (len p.body))) (remove recv pending)
              (omega arith),
        ))
]

-- A packet at the receive offset comes out first.
pub drain_loop-front :
    (fuel recv : ℕ) (pending : HashMap PtcpPacket) (p : PtcpPacket)
    → lookup recv pending ≡ some p
    → (rest : List PtcpPacket) × ((drain_loop (suc fuel) recv pending).ready ≡ p ∷ rest)
unfolding drain_loop
drain_loop-front fuel recv pending p l = (
  (drain_loop fuel (wrapping_add recv (as_u32 (len p.body))) (remove recv pending)).ready,
  rw (l, drain_loop),
)

-- Each packet starts where the one before it ends, the first at `start`.
abbrev pub IsChain : ℕ → List PtcpPacket → Type 0
IsChain start [] = Unit {0}
IsChain start (p ∷ ps) = (p.sent ≡ start) × IsChain (wrapping_add start (as_u32 (len p.body))) ps

-- Where a chain from `start` ends.
abbrev pub chain_end : ℕ → List PtcpPacket → ℕ
chain_end start [] = start
chain_end start (p ∷ ps) = chain_end (wrapping_add start (as_u32 (len p.body))) ps

abbrev pub Keyed : HashMap PtcpPacket → Type 0
Keyed pending = (e : ℕ × PtcpPacket) → In e pending → e.0 ≡ (e.1).sent

-- The packets that come out are a chain from the old receive offset to the new one.
pub drain_loop-IsChain :
    (fuel recv : ℕ) (pending : HashMap PtcpPacket)
    → Keyed pending
    → let d = drain_loop fuel recv pending in
      IsChain recv d.ready × (d.recv ≡ chain_end recv d.ready)
unfolding drain_loop
drain_loop-IsChain zero recv pending h = (tt, refl)
drain_loop-IsChain (suc fuel) recv pending h = elim (Option-cases (lookup recv pending)) [
  | inl l ↦ rw (l, drain_loop) (tt, refl)
  | inr (p, l) ↦
      let (chain, at_end) =
        drain_loop-IsChain fuel (wrapping_add recv (as_u32 (len p.body))) (remove recv pending)
          (λ e i. h e (In-remove e recv pending i).0) in
      rw (l, drain_loop) ((sym (h (recv, p) (In-lookup recv p pending l)), chain), at_end)
]
