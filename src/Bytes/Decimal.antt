-- ===== src/Bytes/Decimal.antt =====
-- Decimal numbers: `to_string` of an unsigned integer and `str::parse`.
use dahua_p2p_bridge.Common.{
  ℕ, zero, suc, ◌+◌, ◌-◌, ◌*◌, ◌/◌, ◌%◌, ◌^◌, ◌<◌, ◌≡◌, refl, ◌∙◌, sym, ap, true, false, Option,
  none, some, List, [], ◌∷◌, All, arith, ltb, ◌==◌, if◌then◌else◌, Bool-cases, inl, inr,
}
use dahua_p2p_bridge.Bytes.{is_ascii_digit, codes}

-- A number has fewer digits than its value and one more.
unfoldable pub digits_from : ℕ → ℕ → List ℕ → List ℕ
digits_from zero n rest = rest
digits_from (suc fuel) n rest =
    let more = digits_from fuel (n / 10) ((b'0' + n % 10) ∷ rest) in
    if ltb n 10 then (b'0' + n) ∷ rest else more

unfoldable pub to_decimal : ℕ → List ℕ
unfolding digits_from
to_decimal n = digits_from (suc n) n []

unfoldable pub digits_value : ℕ → List ℕ → Option ℕ
digits_value acc [] = some acc
digits_value acc (b ∷ bs) =
    let more = digits_value (acc * 10 + (b - b'0')) bs in if is_ascii_digit b then more else none

-- At least one digit, and a value that is less than the limit.
unfoldable pub parse_digits : ℕ → List ℕ → Option ℕ
unfolding digits_value
parse_digits limit [] = none
parse_digits limit (b ∷ bs) = elim (digits_value 0 (b ∷ bs)) [
  | none ↦ none
  | some n ↦ if ltb n limit then some n else none
]

-- `parse` of an unsigned type with the values below `limit`: one `+` may stand in front.
unfoldable pub parse_unsigned : ℕ → List ℕ → Option ℕ
unfolding parse_digits
parse_unsigned limit [] = none
parse_unsigned limit (b ∷ bs) =
    if b == b'+' then parse_digits limit bs else parse_digits limit (b ∷ bs)

digits_value-digits_from :
    (fuel n : ℕ) (rest : List ℕ)
    → n < fuel
    → digits_value 0 (digits_from fuel n rest) ≡ digits_value n rest
unfolding digits_value digits_from
digits_value-digits_from zero n rest h = absurd (omega arith)
digits_value-digits_from (suc fuel) n rest h = elim (Bool-cases (ltb n 10)) [
  | inl small ↦ rw small (ground arith)
  | inr large ↦ rw large (
      digits_value-digits_from fuel (n / 10) ((b'0' + n % 10) ∷ rest) (ground arith) ∙ ground arith)
]

-- The first digit is no sign.
digits_from_head :
    (fuel n : ℕ) (rest : List ℕ)
    → n < fuel
    → (b : ℕ) × (bs : List ℕ) × (digits_from fuel n rest ≡ b ∷ bs) × (is_ascii_digit b ≡ true)
unfolding digits_from
digits_from_head zero n rest h = absurd (omega arith)
digits_from_head (suc fuel) n rest h = elim (Bool-cases (ltb n 10)) [
  | inl small ↦ (b'0' + n, rest, rw small refl, ground (arith, small))
  | inr large ↦
      let (b, bs, e, d) = digits_from_head fuel (n / 10) ((b'0' + n % 10) ∷ rest) (ground arith) in
      (b, bs, rw large e, d)
]

parse_unsigned_digits :
    (limit b : ℕ) (bs : List ℕ) (n : ℕ)
    → is_ascii_digit b ≡ true
    → digits_value 0 (b ∷ bs) ≡ some n
    → n < limit
    → parse_unsigned limit (b ∷ bs) ≡ some n
unfolding parse_unsigned parse_digits
parse_unsigned_digits limit b bs n d v h =
    let sign : (b == b'+') ≡ false = ground (arith, d) in rw (sign, parse_digits, v) (ground arith)

-- `parse` reads back what `to_string` writes, below the limit of the type.
pub parse_unsigned-to_decimal :
    (limit n : ℕ) → n < limit → parse_unsigned limit (to_decimal n) ≡ some n
unfolding to_decimal
parse_unsigned-to_decimal limit n h =
    let (b, bs, e, d) = digits_from_head (suc n) n [] (omega arith) in
    let v = digits_value-digits_from (suc n) n [] (omega arith) in
    ap (parse_unsigned limit) e
    ∙ parse_unsigned_digits limit b bs n d
        (ap (digits_value 0) (sym e) ∙ v ∙ unfold digits_value in refl) h

abbrev pub AreDigits : List ℕ → Type 0
AreDigits = All (λ b. is_ascii_digit b ≡ true)

digits_from-AreDigits :
    (fuel n : ℕ) (rest : List ℕ) → n < fuel → AreDigits rest → AreDigits (digits_from fuel n rest)
unfolding digits_from
digits_from-AreDigits zero n rest h r = r
digits_from-AreDigits (suc fuel) n rest h r = elim (Bool-cases (ltb n 10)) [
  | inl small ↦ rw small (ground (arith, small), r)
  | inr large ↦ rw large (
      digits_from-AreDigits fuel (n / 10) ((b'0' + n % 10) ∷ rest) (ground arith) (ground arith, r))
]

pub to_decimal-AreDigits : (n : ℕ) → AreDigits (to_decimal n)
unfolding to_decimal
to_decimal-AreDigits n = digits_from-AreDigits (suc n) n [] (omega arith) tt

to_decimal_test : to_decimal 10250 ≡ codes "10250"
unfolding to_decimal
to_decimal_test = refl

parse_test : parse_unsigned (2 ^ 64) (codes "+0042") ≡ some 42
unfolding parse_unsigned
parse_test = refl
