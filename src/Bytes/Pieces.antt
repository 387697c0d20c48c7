-- ===== src/Bytes/Pieces.antt =====
-- The first piece of `split`, and the first of `rsplit`, as parts of the text.
use dahua_p2p_bridge.Common.{
  ℕ, ◌≡◌, refl, sym, ap, ◌∙◌, ◌⊎◌, inl, inr, Bool, true, false, Bool-cases, List, [], ◌∷◌, ◌++◌,
  All, any,
}
use mathlib.Core.Bool.{false≢true}
use dahua_p2p_bridge.Bytes.{before_first, after_last}
use dahua_p2p_bridge.Bytes.Search.{StartsWith}

module _ (p : ℕ → Bool) where
  pub before_first-split :
      (bs : List ℕ)
      → (rest : List ℕ) × (bs ≡ before_first p bs ++ rest)
        × All (λ b. p b ≡ false) (before_first p bs)
        × StartsWith p rest
  unfolding before_first
  before_first-split [] = ([], refl, tt, tt)
  before_first-split (b ∷ bs) = elim (Bool-cases (p b)) [
    | inl stops ↦ rw stops (b ∷ bs, refl, tt, stops)
    | inr goes ↦
        let (rest, splits, clean, front) = before_first-split bs in
        rw goes (rest, ap (◌∷◌ b) splits, (goes, clean), front)
  ]

  any-All : (bs : List ℕ) → any p bs ≡ false → All (λ b. p b ≡ false) bs
  any-All [] h = tt
  any-All (b ∷ bs) h = elim (Bool-cases (p b)) [
    | inl found ↦ cc (rw found at h)
    | inr other ↦ (other, any-All bs (rw other at h))
  ]

  All-any : (bs : List ℕ) → All (λ b. p b ≡ false) bs → any p bs ≡ false
  All-any [] h = refl
  All-any (b ∷ bs) h = rw (h.0) (All-any bs h.1)

  -- Nothing, or what ends with a byte of the kind.
  abbrev pub EndsWith : List ℕ → Type 0
  EndsWith front =
      (front ≡ []) ⊎ ((name : List ℕ) × (b : ℕ) × (front ≡ name ++ (b ∷ [])) × (p b ≡ true))

  pub after_last-split :
      (bs : List ℕ)
      → (front : List ℕ) × (bs ≡ front ++ after_last p bs)
        × All (λ b. p b ≡ false) (after_last p bs)
        × EndsWith front
  unfolding after_last
  after_last-split [] = ([], refl, tt, inl refl)
  after_last-split (b ∷ bs) = elim (Bool-cases (any p bs)) [
    | inl later ↦
        let (front, splits, clean, ends) = after_last-split bs in
        rw later (
          b ∷ front,
          ap (◌∷◌ b) splits,
          clean,
          elim ends [
            | inl empty ↦ absurd (
                false≢true (
                  sym (All-any (after_last p bs) clean)
                  ∙ ap (any p) (sym (splits ∙ ap (λ f. f ++ after_last p bs) empty))
                  ∙ later))
            | inr (name, c, is, h) ↦ inr (b ∷ name, c, ap (◌∷◌ b) is, h)
          ],
        )
    | inr last ↦ elim (Bool-cases (p b)) [
      | inl here ↦ rw (last, here) (b ∷ [], refl, any-All bs last, inr ([], b, refl, here))
      | inr not ↦ rw (last, not) ([], refl, (not, any-All bs last), inl refl)
    ]
  ]
