-- ===== src/Ptcp/Sequence.antt =====
-- `sequence_after` of rust-engine/src/ptcp.rs: order on wrapping u32 byte counters.
use dahua_p2p_bridge.Common.{ℕ, ◌+◌, ◌%◌, ◌^◌, ◌<◌, ◌≡◌, Bool, true, false, ◌&&◌, arith, ltb}
use dahua_p2p_bridge.Common.Words.{IsU32, u32_mod, wrapping_sub}

-- `n as i32 > 0`
abbrev i32_positive : ℕ → Bool
i32_positive n = ltb 0 n && ltb n (2 ^ 31)

unfoldable pub sequence_after : ℕ → ℕ → Bool
sequence_after value reference = i32_positive (wrapping_sub value reference)

-- Within 2 ^ 31 bytes ahead of `base` the test is the order of the distances from `base`, whether or
-- not the counters wrap in between.
pub sequence_after-offset :
    (base a b : ℕ)
    → a < 2 ^ 31
    → b < 2 ^ 31
    → sequence_after ((base + a) % u32_mod) ((base + b) % u32_mod) ≡ ltb b a
unfolding sequence_after
sequence_after-offset base a b ha hb = ground arith

-- No counter is after itself, and of two counters at most one is after the other.
sequence_after_asym :
    (a b : ℕ) → IsU32 a → IsU32 b → sequence_after a b ≡ true → sequence_after b a ≡ false
unfolding sequence_after
sequence_after_asym a b ha hb h = ground arith
