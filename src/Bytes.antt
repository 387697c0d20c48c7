-- ===== src/Bytes.antt =====
-- What rust-engine/src uses of byte slices and `str` in Rust's standard library. A `String` is the
-- list of its bytes.
pub mod Decimal
pub mod Trim
pub mod Lines
pub mod Search
pub mod Pieces
use Prim.Native.Char.{code}
use Prim.Native.String.{String}
use dahua_p2p_bridge.Common.{
  ℕ, ◌+◌, ◌≡◌, refl, Bool, true, false, ◌&&◌, ◌||◌, Option, none, some, List, [], ◌∷◌, leb, ◌==◌,
  if◌then◌else◌, any, length, map,
}

-- The bytes of an ASCII literal.
abbrev pub codes : String → List ℕ
codes String.[] = []
codes (String.◌∷◌ c s) = code c ∷ codes s

abbrev pub is_ascii_digit : ℕ → Bool
is_ascii_digit b = leb b'0' b && leb b b'9'

unfoldable pub to_ascii_lowercase : ℕ → ℕ
to_ascii_lowercase b = if leb b'A' b && leb b b'Z' then b + 32 else b

-- `==` of bytes, and `eq_ignore_ascii_case`.
abbrev pub same_case : ℕ → ℕ → Bool
same_case a b = a == b

unfoldable pub any_case : ℕ → ℕ → Bool
unfolding to_ascii_lowercase
any_case a b = to_ascii_lowercase a == to_ascii_lowercase b

-- The functions on slices, over the test by which bytes are compared.
module _ (eq : ℕ → ℕ → Bool) where
  unfoldable pub eq_bytes : List ℕ → List ℕ → Bool
  eq_bytes [] [] = true
  eq_bytes [] (b ∷ bs) = false
  eq_bytes (a ∷ xs) [] = false
  eq_bytes (a ∷ xs) (b ∷ bs) = eq a b && eq_bytes xs bs

  unfoldable pub starts_with : List ℕ → List ℕ → Bool
  starts_with [] bs = true
  starts_with (p ∷ ps) [] = false
  starts_with (p ∷ ps) (b ∷ bs) = eq p b && starts_with ps bs

  -- `windows(n).position(…)` for a pattern of n bytes, n not 0, and `str::find`.
  unfoldable pub find : List ℕ → List ℕ → Option ℕ
  unfolding starts_with
  find p [] = none
  find p (b ∷ bs) =
      let rest = find p bs in
      if starts_with p (b ∷ bs) then some 0 else elim rest [ none ↦ none | some i ↦ some (i + 1) ]

abbrev pub is_some {ℓ} : {A : Type ℓ} → Option A → Bool
is_some none = false
is_some (some a) = true

-- `str::contains`
unfoldable pub contains : List ℕ → List ℕ → Bool
unfolding find
contains p bs = is_some (find same_case p bs)

-- `iter().position(…)`, with the length where no byte is found.
unfoldable pub end_of : (ℕ → Bool) → List ℕ → ℕ
end_of p [] = 0
end_of p (b ∷ bs) = let rest = end_of p bs in if p b then 0 else rest + 1

-- The first piece of `split`, and the first of `rsplit`.
unfoldable pub before_first : (ℕ → Bool) → List ℕ → List ℕ
before_first p [] = []
before_first p (b ∷ bs) = let rest = before_first p bs in if p b then [] else b ∷ rest

unfoldable pub after_last : (ℕ → Bool) → List ℕ → List ℕ
after_last p [] = []
after_last p (b ∷ bs) =
    let rest = after_last p bs in if any p bs then rest else if p b then bs else b ∷ bs

-- `str::split_once`
unfoldable pub split_once : ℕ → List ℕ → Option (List ℕ × List ℕ)
split_once c [] = none
split_once c (b ∷ bs) =
    let rest = split_once c bs in
    if b == c
    then some ([], bs)
    else elim rest [ none ↦ none | some (before, after) ↦ some (b ∷ before, after) ]

abbrev pub all : (ℕ → Bool) → List ℕ → Bool
all p [] = true
all p (b ∷ bs) = p b && all p bs

-- `filter(…).count()`
unfoldable pub count : (ℕ → Bool) → List ℕ → ℕ
count p [] = 0
count p (b ∷ bs) = (if p b then 1 else 0) + count p bs

find_test : find any_case (codes "http://") (codes "xHTTP://y") ≡ some 1
unfolding find any_case
find_test = refl

host_test :
    before_first (λ b. b == b':') (after_last (λ b. b == b'@') (codes "u:p@10.0.0.1:80"))
    ≡ codes "10.0.0.1"
unfolding before_first after_last
host_test = refl
