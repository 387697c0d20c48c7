-- ===== src/Settings.antt =====
-- The settings that rust-engine/src reads from the environment. A variable is none if it is not set, or
-- not Unicode.
mod Tests
use dahua_p2p_bridge.Common.{
  ℕ, ◌*◌, ◌^◌, ◌≤◌, ◌<◌, ◌≡◌, ◌≢◌, refl, sym, ap, ◌∙◌, ◌⊎◌, inl, inr, Bool, true, false, ◌||◌,
  Bool-cases, Option, none, some, Option-cases, List, [], ◌∷◌, map, any, leb, if◌then◌else◌, arith,
}
use dahua_p2p_bridge.Bytes.{codes, same_case, eq_bytes, to_ascii_lowercase}
use dahua_p2p_bridge.Bytes.Decimal.{to_decimal, parse_unsigned, parse_unsigned-to_decimal}
use dahua_p2p_bridge.Bytes.Trim.{trim}
use dahua_p2p_bridge.Ptcp.Wire.{PtcpBody, bind, status}
use dahua_p2p_bridge.Ptcp.Session.{from_millis}

-- `u64`, and `usize` on a machine with 64 bits.
abbrev pub word_limit : ℕ
word_limit = 2 ^ 64

-- `and_then(|value| value.parse().ok())`, `filter` by a least value, and `unwrap_or`.
unfoldable pub number_setting : ℕ → ℕ → Option (List ℕ) → ℕ
number_setting least default none = default
number_setting least default (some value) = elim (parse_unsigned word_limit value) [
  | none ↦ default
  | some n ↦ if leb least n then n else default
]

unfoldable pub gap_timeout : Option (List ℕ) → ℕ
unfolding number_setting
gap_timeout variable = from_millis (number_setting 250 2000 variable)

unfoldable pub idle_reconnect_seconds : Option (List ℕ) → ℕ
unfolding number_setting
idle_reconnect_seconds variable = number_setting 0 0 variable

unfoldable pub bind_timeout_seconds : Option (List ℕ) → ℕ
unfolding number_setting
bind_timeout_seconds variable = number_setting 12 45 variable

unfoldable pub requested_recv_buffer : Option (List ℕ) → ℕ
unfolding number_setting
requested_recv_buffer variable = number_setting (64 * 1024) (32 * 1024 * 1024) variable

-- `matches!` on the value in lower case.
unfoldable pub is_one_of : List (List ℕ) → List ℕ → Bool
unfolding eq_bytes
is_one_of names value = any (λ name. eq_bytes same_case name (map to_ascii_lowercase value)) names

unfoldable pub packet_debug_enabled : Option (List ℕ) → Bool
unfolding is_one_of
packet_debug_enabled none = false
packet_debug_enabled (some value) = is_one_of (codes "1" ∷ codes "true" ∷ codes "yes" ∷ []) value

abbrev pub is_bind_or_status : PtcpBody → Bool
is_bind_or_status (bind realm port) = true
is_bind_or_status (status realm text) = true
is_bind_or_status _ = false

unfoldable pub packet_log_enabled : Option (List ℕ) → PtcpBody → Bool
unfolding packet_debug_enabled
packet_log_enabled variable body = packet_debug_enabled variable || is_bind_or_status body

unfoldable pub allow_gap_skip : Option (List ℕ) → Bool
unfolding is_one_of
allow_gap_skip none = false
allow_gap_skip (some value) =
    is_one_of (codes "1" ∷ codes "true" ∷ codes "yes" ∷ codes "on" ∷ []) (trim value)

number_setting-le :
    (least default : ℕ) (variable : Option (List ℕ))
    → least ≤ default
    → least ≤ number_setting least default variable
unfolding number_setting
number_setting-le least default none h = h
number_setting-le least default (some value) h =
    elim (Option-cases (parse_unsigned word_limit value)) [
      | inl e ↦ rw (number_setting, e) h
      | inr (n, e) ↦ rw (number_setting, e) (ground arith)
    ]

number_setting-to_decimal :
    (least default n : ℕ)
    → n < word_limit
    → number_setting least default (some (to_decimal n)) ≡ (if leb least n then n else default)
unfolding number_setting
number_setting-to_decimal least default n h =
    rw (number_setting, parse_unsigned-to_decimal word_limit n h) refl

-- Whatever the environment says, a gap is waited for at least 250 ms, a bind at least 12 seconds, and
-- the receive buffer asked for has at least 64 KiB; a number written in decimal counts if it is as large
-- as that, and else the default does; and the idle limit is any number written, 0 if there is none.
pub settings_bounds :
    (variable : Option (List ℕ)) (n : ℕ)
    → n < word_limit
    → (from_millis 250 ≤ gap_timeout variable)
      × (12 ≤ bind_timeout_seconds variable)
      × (64 * 1024 ≤ requested_recv_buffer variable)
      × (gap_timeout (some (to_decimal n)) ≡ from_millis (if leb 250 n then n else 2000))
      × (bind_timeout_seconds (some (to_decimal n)) ≡ (if leb 12 n then n else 45))
      × (requested_recv_buffer (some (to_decimal n))
          ≡ (if leb (64 * 1024) n then n else 32 * 1024 * 1024))
      × (idle_reconnect_seconds (some (to_decimal n)) ≡ n)
      × (idle_reconnect_seconds none ≡ 0)
unfolding gap_timeout bind_timeout_seconds requested_recv_buffer idle_reconnect_seconds
settings_bounds variable n h = (
  omega (arith, number_setting-le 250 2000 variable (omega arith)),
  number_setting-le 12 45 variable (omega arith),
  number_setting-le (64 * 1024) (32 * 1024 * 1024) variable (omega arith),
  ap from_millis (number_setting-to_decimal 250 2000 n h),
  number_setting-to_decimal 12 45 n h,
  number_setting-to_decimal (64 * 1024) (32 * 1024 * 1024) n h,
  number_setting-to_decimal 0 0 n h ∙ ground arith,
  refl,
)
