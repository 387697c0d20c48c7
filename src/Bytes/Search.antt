-- ===== src/Bytes/Search.antt =====
-- What the searches in byte strings find.
use dahua_p2p_bridge.Common.{
  ℕ, suc, ◌+◌, ◌≤◌, ◌≡◌, refl, ap, inl, inr, Bool, true, false, Bool-cases, Option, none, some,
  Option-cases, List, [], ◌∷◌, length, take, drop, All, arith,
}
use mathlib.Core.Option.{some-injective}
use dahua_p2p_bridge.Bytes.{starts_with, find, end_of}

-- A place that many bytes on.
abbrev pub shift : ℕ → Option ℕ → Option ℕ
shift n none = none
shift n (some i) = some (n + i)

pub shift-shift : (m n : ℕ) (o : Option ℕ) → shift m (shift n o) ≡ shift (m + n) o
shift-shift m n none = refl
shift-shift m n (some i) = ap some (omega arith)

module _ (eq : ℕ → ℕ → Bool) where
  starts_with-le : (p bs : List ℕ) → starts_with eq p bs ≡ true → length p ≤ length bs
  unfolding starts_with
  starts_with-le [] bs h = omega arith
  starts_with-le (x ∷ p) [] h = cc h
  starts_with-le (x ∷ p) (b ∷ bs) h = ground (arith, starts_with-le p bs)

  -- What is found is there, inside the text.
  pub find_inside :
      (p bs : List ℕ) (i : ℕ)
      → find eq p bs ≡ some i
      → (i + length p ≤ length bs) × (starts_with eq p (drop i bs) ≡ true)
  unfolding find
  find_inside p [] i h = cc h
  find_inside p (b ∷ bs) i h = elim (Bool-cases (starts_with eq p (b ∷ bs))) [
    | inl here ↦
        let at : 0 ≡ i = some-injective 0 i (rw (find, here) at h) in
        rw (← at) (omega (arith, starts_with-le p (b ∷ bs) here), here)
    | inr away ↦ elim (Option-cases (find eq p bs)) [
      | inl e ↦ cc (rw (find, away, e) at h)
      | inr (j, e) ↦
          let at : suc j ≡ i = omega (arith, some-injective (j + 1) i (rw (find, away, e) at h)) in
          let (inside, starts) = find_inside p bs j e in rw (← at) (omega (arith, inside), starts)
    ]
  ]

  pub find_step :
      (p : List ℕ) (b : ℕ) (bs : List ℕ)
      → starts_with eq p (b ∷ bs) ≡ false
      → find eq p (b ∷ bs) ≡ shift 1 (find eq p bs)
  unfolding find
  find_step p b bs off = elim (Option-cases (find eq p bs)) [
    | inl e ↦ rw (find, off, e) refl
    | inr (i, e) ↦ rw (find, off, e) (ap some (omega arith))
  ]

-- A byte of the kind that `end_of` looks for stands in front, or nothing does.
abbrev pub StartsWith : (ℕ → Bool) → List ℕ → Type 0
StartsWith p [] = Unit {0}
StartsWith p (b ∷ bs) = p b ≡ true

module _ (p : ℕ → Bool) where
  pub end_of-le : (bs : List ℕ) → end_of p bs ≤ length bs
  unfolding end_of
  end_of-le [] = omega arith
  end_of-le (b ∷ bs) = ground (arith, end_of-le bs)

  pub take-end_of : (bs : List ℕ) → All (λ b. p b ≡ false) (take (end_of p bs) bs)
  unfolding end_of
  take-end_of [] = tt
  take-end_of (b ∷ bs) = elim (Bool-cases (p b)) [
    | inl stops ↦ rw stops tt
    | inr goes ↦
        let next : end_of p bs + 1 ≡ suc (end_of p bs) = omega arith in
        rw (goes, next) (goes, take-end_of bs)
  ]

  pub drop-end_of : (bs : List ℕ) → StartsWith p (drop (end_of p bs) bs)
  unfolding end_of
  drop-end_of [] = tt
  drop-end_of (b ∷ bs) = elim (Bool-cases (p b)) [
    | inl stops ↦ rw stops stops
    | inr goes ↦
        let next : end_of p bs + 1 ≡ suc (end_of p bs) = omega arith in
        rw (goes, next) (drop-end_of bs)
  ]
