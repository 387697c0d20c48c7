-- ===== src/Common/Words.antt =====
-- u32 arithmetic: a word is a native number below 2 ^ 32, and wraps by `% 2 ^ 32`.
use Prim.Native.Nat.{ℕ, ◌+◌, ◌-◌, ◌*◌, ◌/◌, ◌%◌, ◌^◌, ◌<◌}
use mathlib.Core.Path.{◌≡◌}
use mathlib.Core.List.{List, [], ◌∷◌}
use native.Mathlib.Omega.{arith}

abbrev pub u32_mod : ℕ
u32_mod = 2 ^ 32

abbrev pub IsU32 : ℕ → Type 0
IsU32 n = n < u32_mod

-- `n as u32`
abbrev pub as_u32 : ℕ → ℕ
as_u32 n = n % u32_mod

-- `a.wrapping_add(b)` and `a.wrapping_sub(b)`.
abbrev pub wrapping_add : ℕ → ℕ → ℕ
wrapping_add a b = (a + b) % u32_mod

abbrev pub wrapping_sub : ℕ → ℕ → ℕ
wrapping_sub a b = (a + u32_mod - b) % u32_mod

-- `n.to_be_bytes()` and `u32::from_be_bytes([a, b, c, d])`.
abbrev pub to_be_bytes : ℕ → List ℕ
to_be_bytes n = (n / 2 ^ 24 % 256) ∷ (n / 2 ^ 16 % 256) ∷ (n / 2 ^ 8 % 256) ∷ (n % 256) ∷ []

abbrev pub from_be_bytes : ℕ → ℕ → ℕ → ℕ → ℕ
from_be_bytes a b c d = a * 2 ^ 24 + b * 2 ^ 16 + c * 2 ^ 8 + d

pub from_be_bytes-to_be_bytes :
    (n : ℕ)
    → IsU32 n
    → from_be_bytes (n / 2 ^ 24 % 256) (n / 2 ^ 16 % 256) (n / 2 ^ 8 % 256) (n % 256) ≡ n
from_be_bytes-to_be_bytes n h = omega arith
