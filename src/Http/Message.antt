-- ===== src/Http/Message.antt =====
-- `http_request_complete` and `http_response_complete` of rust-engine/src/process.rs, which have the
-- same body. A usize has 64 bits, and its sum wraps, as in the release build.
pub mod Header
pub mod Later
use dahua_p2p_bridge.Common.{
  ℕ, ◌+◌, ◌%◌, ◌^◌, ◌≡◌, refl, Bool, true, false, Option, none, some, List, [], ◌∷◌, ◌++◌, length,
  take, leb, if◌then◌else◌,
}
use dahua_p2p_bridge.Utf8.{from_utf8_lossy}
use dahua_p2p_bridge.Bytes.{codes, same_case, any_case, eq_bytes, find, split_once}
use dahua_p2p_bridge.Bytes.Decimal.{parse_unsigned}
use dahua_p2p_bridge.Bytes.Trim.{trim}
use dahua_p2p_bridge.Bytes.Lines.{lines}

abbrev pub header_mark : List ℕ
header_mark = codes "\r\n\r\n"

-- Where the empty line starts that ends the header.
abbrev pub header_end : List ℕ → Option ℕ
header_end message = find same_case header_mark message

abbrev pub usize_limit : ℕ
usize_limit = 2 ^ 64

-- What a line says of the length, if anything.
unfoldable pub line_length : List ℕ → Option ℕ
line_length line = elim (split_once b':' line) [
  | none ↦ none
  | some (name, value) ↦
      if eq_bytes any_case name (codes "content-length")
      then parse_unsigned usize_limit (trim value)
      else none
]

abbrev pub or_else : Option ℕ → Option ℕ → Option ℕ
or_else none later = later
or_else (some n) later = some n

-- `find_map` over the lines.
unfoldable pub find_length : List (List ℕ) → Option ℕ
unfolding line_length
find_length [] = none
find_length (line ∷ rest) = let later = find_length rest in or_else (line_length line) later

unfoldable pub content_length : List ℕ → Option ℕ
unfolding find_length
content_length headers = find_length (lines headers)

-- The test behind the header.
abbrev pub has_body : ℕ → ℕ → Option ℕ → Bool
has_body total header none = true
has_body total header (some n) = leb ((header + 4 + n) % usize_limit) total

unfoldable pub message_complete : List ℕ → Bool
unfolding content_length
message_complete message = elim (header_end message) [
  | none ↦ false
  | some h ↦ has_body (length message) h (content_length (from_utf8_lossy (take h message)))
]

unfoldable pub http_request_complete : List ℕ → Bool
unfolding message_complete
http_request_complete request = message_complete request

unfoldable pub http_response_complete : List ℕ → Bool
unfolding message_complete
http_response_complete response = message_complete response
