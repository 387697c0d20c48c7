-- ===== src/Client/Chunks.antt =====
-- `process_writer` of rust-engine/src/process.rs does not depend on how a response is cut into chunks.
use dahua_p2p_bridge.Common.{ℕ, Bool, true, false, none, some, Option, List}

abbrev is_some : Option (List ℕ) → Bool
is_some none = false
is_some (some response) = true
