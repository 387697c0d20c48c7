-- ===== src/Settings/Tests.antt =====
-- The settings of rust-engine/src at concrete values.
use dahua_p2p_bridge.Common.{ℕ, ◌*◌, ◌≤◌, ◌≡◌, refl, true, false, Option, none, some, List, arith}
use dahua_p2p_bridge.Bytes.{codes, to_ascii_lowercase}
use dahua_p2p_bridge.Bytes.Decimal.{to_decimal}
use dahua_p2p_bridge.Bytes.Trim.{trim}
use dahua_p2p_bridge.Ptcp.Session.{from_millis}
use dahua_p2p_bridge.Settings.{
  gap_timeout, bind_timeout_seconds, requested_recv_buffer, idle_reconnect_seconds,
  packet_debug_enabled, allow_gap_skip, settings_bounds,
}

trims_and_lowers : allow_gap_skip (some (codes " On\n")) ≡ true
unfolding allow_gap_skip trim to_ascii_lowercase
trims_and_lowers = refl

debug_does_not_trim : packet_debug_enabled (some (codes " yes")) ≡ false
unfolding packet_debug_enabled to_ascii_lowercase
debug_does_not_trim = refl

-- Signed, and below the least value.
abbrev plus_eleven : Option (List ℕ)
plus_eleven = some (codes "+11")

settings_bounds_example :
    (from_millis 250 ≤ gap_timeout plus_eleven)
    × (12 ≤ bind_timeout_seconds plus_eleven)
    × (64 * 1024 ≤ requested_recv_buffer plus_eleven)
    × (gap_timeout (some (to_decimal 300)) ≡ from_millis 300)
    × (bind_timeout_seconds (some (to_decimal 300)) ≡ 300)
    × (requested_recv_buffer (some (to_decimal 300)) ≡ 32 * 1024 * 1024)
    × (idle_reconnect_seconds (some (to_decimal 300)) ≡ 300)
    × (idle_reconnect_seconds none ≡ 0)
settings_bounds_example = settings_bounds plus_eleven 300 (omega arith)
