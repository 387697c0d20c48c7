-- ===== src/Utf8.antt =====
-- The part of Rust's standard library that turns bytes into text: `str::from_utf8` and
-- `String::from_utf8_lossy`. A `String` is the list of its bytes.
use dahua_p2p_bridge.Common.{
  ℕ, zero, suc, ◌+◌, ◌≤◌, ◌<◌, All, ◌≡◌, refl, Bool, true, false, ◌&&◌, List, [], ◌∷◌, ◌++◌, arith,
  ltb, leb, ◌==◌, if◌then◌else◌, length, take, drop, take-append-drop, length-drop-le,
}

abbrev in_range : ℕ → ℕ → ℕ → Bool
in_range lo hi b = leb lo b && leb b hi

-- What stands behind a first byte: whether the character is well formed, and how many bytes of the
-- character, or of its longest well-formed beginning, follow the first.
abbrev Piece : Type 0
Piece = Bool × ℕ

-- `k` continuation bytes, `taken` bytes being taken already.
continuation : ℕ → ℕ → List ℕ → Piece
continuation zero taken bs = (true, taken)
continuation (suc k) taken [] = (false, taken)
continuation (suc k) taken (b ∷ bs) =
    if in_range 0x80 0xbf b then continuation k (taken + 1) bs else (false, taken)

-- A second byte between `lo` and `hi`, and `k` continuation bytes.
second : ℕ → ℕ → ℕ → List ℕ → Piece
second lo hi k [] = (false, 0)
second lo hi k (b ∷ bs) = if in_range lo hi b then continuation k 1 bs else (false, 0)

piece : ℕ → List ℕ → Piece
unfolding second continuation
piece b bs =
    if ltb b 0x80
    then (true, 0)
    else if in_range 0xc2 0xdf b
    then second 0x80 0xbf 0 bs
    else if b == 0xe0
    then second 0xa0 0xbf 1 bs
    else if in_range 0xe1 0xec b
    then second 0x80 0xbf 1 bs
    else if b == 0xed
    then second 0x80 0x9f 1 bs
    else if in_range 0xee 0xef b
    then second 0x80 0xbf 1 bs
    else if b == 0xf0
    then second 0x90 0xbf 2 bs
    else if in_range 0xf1 0xf3 b
    then second 0x80 0xbf 2 bs
    else if b == 0xf4
    then second 0x80 0x8f 2 bs
    else (false, 0)

-- A character, or U+FFFD for an ill-formed piece.
replace_piece : Bool → ℕ → List ℕ → List ℕ
replace_piece true b bs = b ∷ bs
replace_piece false b bs = 0xef ∷ 0xbf ∷ 0xbd ∷ []

lossy_loop : ℕ → List ℕ → List ℕ
lossy_loop zero bs = []
lossy_loop (suc fuel) [] = []
lossy_loop (suc fuel) (b ∷ bs) =
    let (valid, n) = piece b bs in replace_piece valid b (take n bs) ++ lossy_loop fuel (drop n bs)

-- Each piece takes a byte at least, so `length bs` rounds are enough.
unfoldable pub from_utf8_lossy : List ℕ → List ℕ
unfolding piece replace_piece lossy_loop
from_utf8_lossy bs = lossy_loop (length bs) bs

is_utf8_loop : ℕ → List ℕ → Bool
is_utf8_loop zero bs = true
is_utf8_loop (suc fuel) [] = true
is_utf8_loop (suc fuel) (b ∷ bs) =
    let (valid, n) = piece b bs in valid && is_utf8_loop fuel (drop n bs)

unfoldable pub is_utf8 : List ℕ → Bool
unfolding piece is_utf8_loop
is_utf8 bs = is_utf8_loop (length bs) bs

lossy_loop_id :
    (fuel : ℕ) (bs : List ℕ)
    → length bs ≤ fuel
    → is_utf8_loop fuel bs ≡ true
    → lossy_loop fuel bs ≡ bs
unfolding lossy_loop is_utf8_loop replace_piece
lossy_loop_id zero [] h v = refl
lossy_loop_id zero (b ∷ bs) h v = absurd (omega arith)
lossy_loop_id (suc fuel) [] h v = refl
lossy_loop_id (suc fuel) (b ∷ bs) h v =
    let n = (piece b bs).1 in
    ground (arith, lossy_loop_id fuel (drop n bs), length-drop-le n bs, take-append-drop n bs)

-- Well-formed text is left as it is.
pub from_utf8_lossy-is_utf8 : (bs : List ℕ) → is_utf8 bs ≡ true → from_utf8_lossy bs ≡ bs
unfolding from_utf8_lossy is_utf8
from_utf8_lossy-is_utf8 bs = lossy_loop_id (length bs) bs (omega arith)

is_utf8_loop_ascii : (fuel : ℕ) (bs : List ℕ) → All (λ b. b < 0x80) bs → is_utf8_loop fuel bs ≡ true
unfolding is_utf8_loop piece
is_utf8_loop_ascii zero bs h = refl
is_utf8_loop_ascii (suc fuel) [] h = refl
is_utf8_loop_ascii (suc fuel) (b ∷ bs) h =
    let small = h.0 in ground (arith, is_utf8_loop_ascii fuel bs h.1)

pub is_utf8_ascii : (bs : List ℕ) → All (λ b. b < 0x80) bs → is_utf8 bs ≡ true
unfolding is_utf8
is_utf8_ascii bs = is_utf8_loop_ascii (length bs) bs

lossy_test :
    from_utf8_lossy (0x43 ∷ 0xff ∷ 0xe2 ∷ 0x82 ∷ 0x44 ∷ [])
    ≡ 0x43 ∷ 0xef ∷ 0xbf ∷ 0xbd ∷ 0xef ∷ 0xbf ∷ 0xbd ∷ 0x44 ∷ []
unfolding from_utf8_lossy
lossy_test = refl
