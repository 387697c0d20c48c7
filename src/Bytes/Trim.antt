-- ===== src/Bytes/Trim.antt =====
-- `str::trim`: Unicode white space, in UTF-8, at both ends.
use mathlib.Core.List.{reverse, reverse-cons, reverse-reverse}
use dahua_p2p_bridge.Common.{
  ℕ, zero, suc, ◌≡◌, refl, Bool, true, ◌&&◌, ◌||◌, List, [], ◌∷◌, leb, ◌==◌, if◌then◌else◌, length,
  drop, ◌≤◌, ◌<◌, All, ◌++◌, arith, ap, ◌∙◌,
}
use dahua_p2p_bridge.Bytes.Decimal.{AreDigits}
use dahua_p2p_bridge.Bytes.{codes, is_ascii_digit, starts_with, same_case}

-- The characters of more than one byte with the property White_Space.
abbrev wide_spaces : List (List ℕ)
wide_spaces =
    (0xc2 ∷ 0x85 ∷ [])
    ∷ (0xc2 ∷ 0xa0 ∷ [])
    ∷ (0xe1 ∷ 0x9a ∷ 0x80 ∷ [])
    ∷ (0xe2 ∷ 0x80 ∷ 0x80 ∷ [])
    ∷ (0xe2 ∷ 0x80 ∷ 0x81 ∷ [])
    ∷ (0xe2 ∷ 0x80 ∷ 0x82 ∷ [])
    ∷ (0xe2 ∷ 0x80 ∷ 0x83 ∷ [])
    ∷ (0xe2 ∷ 0x80 ∷ 0x84 ∷ [])
    ∷ (0xe2 ∷ 0x80 ∷ 0x85 ∷ [])
    ∷ (0xe2 ∷ 0x80 ∷ 0x86 ∷ [])
    ∷ (0xe2 ∷ 0x80 ∷ 0x87 ∷ [])
    ∷ (0xe2 ∷ 0x80 ∷ 0x88 ∷ [])
    ∷ (0xe2 ∷ 0x80 ∷ 0x89 ∷ [])
    ∷ (0xe2 ∷ 0x80 ∷ 0x8a ∷ [])
    ∷ (0xe2 ∷ 0x80 ∷ 0xa8 ∷ [])
    ∷ (0xe2 ∷ 0x80 ∷ 0xa9 ∷ [])
    ∷ (0xe2 ∷ 0x80 ∷ 0xaf ∷ [])
    ∷ (0xe2 ∷ 0x81 ∷ 0x9f ∷ [])
    ∷ (0xe3 ∷ 0x80 ∷ 0x80 ∷ [])
    ∷ []

pub is_ascii_space : ℕ → Bool
is_ascii_space b = leb 9 b && leb b 13 || b == 32

-- The length of the first of `spaces` that stands in front, or 0.
first_match : List (List ℕ) → List ℕ → ℕ
first_match [] bs = 0
first_match (s ∷ spaces) bs = if starts_with same_case s bs then length s else first_match spaces bs

space_length : List (List ℕ) → List ℕ → ℕ
unfolding is_ascii_space first_match
space_length wide [] = 0
space_length wide (b ∷ bs) = if is_ascii_space b then 1 else first_match wide (b ∷ bs)

-- As many rounds as bytes are enough, since each takes one at least.
trim_loop : List (List ℕ) → ℕ → List ℕ → List ℕ
trim_loop wide zero bs = bs
trim_loop wide (suc fuel) bs = elim (space_length wide bs) [
  | zero ↦ bs
  | suc n ↦ trim_loop wide fuel (drop (suc n) bs)
]

map_reverse : List (List ℕ) → List (List ℕ)
map_reverse [] = []
map_reverse (s ∷ spaces) = reverse s ∷ map_reverse spaces

unfoldable pub trim : List ℕ → List ℕ
unfolding trim_loop space_length map_reverse starts_with
trim bs =
    let front = trim_loop wide_spaces (length bs) bs in
    reverse (trim_loop (map_reverse wide_spaces) (length front) (reverse front))

-- A first byte that no ASCII text has.
abbrev IsHigh : List ℕ → Type 0
IsHigh [] = ⊥
IsHigh (b ∷ bs) = 0x80 ≤ b

first_match-IsHigh :
    (spaces : List (List ℕ)) (b : ℕ) (bs : List ℕ)
    → All IsHigh spaces
    → b < 0x80
    → first_match spaces (b ∷ bs) ≡ 0
unfolding first_match starts_with
first_match-IsHigh [] b bs h low = refl
first_match-IsHigh ([] ∷ spaces) b bs h low = absurd h.0
first_match-IsHigh ((c ∷ s) ∷ spaces) b bs h low =
    let high = h.0 in ground (arith, high, first_match-IsHigh spaces b bs h.1 low)

trim_loop-AreDigits :
    (spaces : List (List ℕ)) (fuel : ℕ) (bs : List ℕ)
    → All IsHigh spaces
    → AreDigits bs
    → trim_loop spaces fuel bs ≡ bs
unfolding trim_loop space_length is_ascii_space
trim_loop-AreDigits spaces zero bs h d = refl
trim_loop-AreDigits spaces (suc fuel) [] h d = refl
trim_loop-AreDigits spaces (suc fuel) (b ∷ bs) h d =
    let digit = d.0 in
    let low : b < 0x80 = ground (arith, digit) in
    let none_here : space_length spaces (b ∷ bs) ≡ 0 =
      ground (arith, digit, first_match-IsHigh spaces b bs h low) in
    rw (trim_loop, none_here) refl

All-reverse : (P : ℕ → Type 0) (xs : List ℕ) → All P xs → All P (reverse xs)
All-reverse P [] h = tt
All-reverse P (x ∷ xs) h = rw (reverse-cons x xs) (snoc (reverse xs) (All-reverse P xs h.1))
  where
    snoc : (ys : List ℕ) → All P ys → All P (ys ++ (x ∷ []))
    snoc [] k = (h.0, tt)
    snoc (y ∷ ys) k = (k.0, snoc ys k.1)

-- A space before digits is trimmed, and nothing else.
pub trim_digits : (bs : List ℕ) → AreDigits bs → trim (b' ' ∷ bs) ≡ bs
unfolding trim map_reverse
trim_digits bs d =
    let front : trim_loop wide_spaces (length bs) bs ≡ bs =
      trim_loop-AreDigits wide_spaces (length bs) bs (omega arith) d in
    let back : trim_loop (map_reverse wide_spaces) (length bs) (reverse bs) ≡ reverse bs =
      trim_loop-AreDigits (map_reverse wide_spaces) (length bs) (reverse bs) (omega arith)
        (All-reverse (λ b. is_ascii_digit b ≡ true) bs d) in
    rw front (ap reverse back ∙ reverse-reverse bs)

trim_test : trim (0xc2 ∷ 0xa0 ∷ 32 ∷ b'4' ∷ 32 ∷ b'2' ∷ 0xe2 ∷ 0x80 ∷ 0x89 ∷ 9 ∷ []) ≡ codes "4 2"
unfolding trim
trim_test = refl
