-- ===== src/Common/Results.antt =====
-- What a call that may panic gives back.
use mathlib.Core.Bool.{Bool, true, false}

-- The assertions of the sources, and an index or a slice out of range.
pub data Panic : Type 0 where
  invalid_payload invalid_header invalid_padding invalid_length invalid_body : Panic
  invalid_packet invalid_magic out_of_bounds : Panic

pub data Result {ℓ} (A : Type ℓ) : Type ℓ where
  ok : A → Result A
  panic : Panic → Result A

infixl 5 ◌>>=◌ ◌>>◌
abbrev pub ◌>>=◌ {ℓ κ} : {A : Type ℓ} {B : Type κ} → Result A → (A → Result B) → Result B
ok a >>= f = f a
panic e >>= f = panic e

abbrev pub ◌>>◌ {ℓ} : {B : Type ℓ} → Result (Unit {0}) → Result B → Result B
m >> k = m >>= λ _. k

-- `assert!(test, …)`.
abbrev pub assert : Bool → Panic → Result (Unit {0})
assert true e = ok tt
assert false e = panic e
