-- ===== src/Ptcp/Receive/Skip.antt =====
-- Where `recv` may give up a gap, and where it goes on.
use dahua_p2p_bridge.Common.{
  ℕ, ◌≤◌, ◌<◌, ◌≡◌, refl, sym, ◌∙◌, ◌⊎◌, inl, inr, true, false, Bool-cases, none, some, [], ◌∷◌, In,
  ltb, ltb→lt, arith,
}
use mathlib.Core.Bool.{false≢true}
use native.Mathlib.Nat.{le_refl, le_trans}
use dahua_p2p_bridge.Common.Words.{wrapping_sub}
use dahua_p2p_bridge.Common.HashMap.{HashMap}
use dahua_p2p_bridge.Ptcp.Wire.{PtcpPacket}
use dahua_p2p_bridge.Ptcp.Sequence.{sequence_after}
use dahua_p2p_bridge.Ptcp.Receive.{recv, next_start}

lt→le : {a b : ℕ} → a < b → a ≤ b
lt→le h = omega arith

not_ltb : (a b : ℕ) → ltb a b ≡ false → b ≤ a
not_ltb a b h = ground arith

-- The nearest start is the key of a pending packet ahead of the offset, and no pending packet ahead
-- of the offset is nearer.
pub record IsNearest (recv : ℕ) (pending : HashMap PtcpPacket) (start : ℕ) : Type 0 where
  pub packet : PtcpPacket
  pub is_pending : In (start, packet) pending
  pub is_ahead : sequence_after start recv ≡ true
  pub no_nearer :
      (e : ℕ × PtcpPacket)
      → In e pending
      → sequence_after e.0 recv ≡ true
      → wrapping_sub start recv ≤ wrapping_sub e.0 recv

-- `next_start` finds the nearest start ahead, or there is none.
pub next_start-IsNearest :
    (recv : ℕ) (pending : HashMap PtcpPacket)
    → ((next_start recv pending ≡ none)
        × ((e : ℕ × PtcpPacket) → In e pending → sequence_after e.0 recv ≡ false))
      ⊎ ((start : ℕ) × (next_start recv pending ≡ some start) × IsNearest recv pending start)
unfolding next_start
next_start-IsNearest recv [] = inl (refl, λ e i. absurd i)
next_start-IsNearest recv ((k, p) ∷ m) = elim (Bool-cases (sequence_after k recv)) [
  | inr behind ↦ elim (next_start-IsNearest recv m) [
    | inl (e, far) ↦
        inl (rw behind e, λ x i. elim i [ inl same ↦ rw same behind | inr j ↦ far x j ])
    | inr (start, e, n) ↦ inr (
      start,
      rw behind e,
      record {
        packet = n.packet;
        is_pending = inr n.is_pending;
        is_ahead = n.is_ahead;
        no_nearer = λ x i a. elim i [
          | inl same ↦ absurd (false≢true (sym behind ∙ rw same at a))
          | inr j ↦ n.no_nearer x j a
        ];
      },
    )
  ]
  | inl ahead ↦ elim (next_start-IsNearest recv m) [
    | inl (e, far) ↦ inr (
      k,
      rw (ahead, e),
      record {
        packet = p;
        is_pending = inl refl;
        is_ahead = ahead;
        no_nearer = λ x i a. elim i [
          | inl same ↦ rw same (le_refl _)
          | inr j ↦ absurd (false≢true (sym (far x j) ∙ a))
        ];
      },
    )
    | inr (start, e, n) ↦ elim (Bool-cases (ltb (wrapping_sub start recv) (wrapping_sub k recv))) [
      | inl closer ↦ inr (
        start,
        rw (ahead, e, closer),
        record {
          packet = n.packet;
          is_pending = inr n.is_pending;
          is_ahead = n.is_ahead;
          no_nearer = λ x i a. elim i [
            | inl same ↦ rw same (lt→le (ltb→lt _ _ closer))
            | inr j ↦ n.no_nearer x j a
          ];
        },
      )
      | inr farther ↦ inr (
        k,
        rw (ahead, e, farther),
        record {
          packet = p;
          is_pending = inl refl;
          is_ahead = ahead;
          no_nearer = λ x i a. elim i [
            | inl same ↦ rw same (le_refl _)
            | inr j ↦ le_trans (not_ltb _ _ farther) (n.no_nearer x j a)
          ];
        },
      )
    ]
  ]
]
