-- ===== src/Http/Redact.antt =====
-- `redact_http_text` of rust-engine/src/process.rs: passwords in a text that is printed. The text is a
-- list of characters here, since the marks that end a value can be white space of any width.
pub mod Redacts
use dahua_p2p_bridge.Common.{
  ℕ, ◌+◌, ◌≡◌, refl, Bool, ◌&&◌, ◌||◌, Option, none, some, List, [], ◌∷◌, ◌++◌, length, drop, leb,
  ◌==◌,
}
use dahua_p2p_bridge.Bytes.{codes, same_case, any_case, find, end_of}
use dahua_p2p_bridge.Http.Splice.{
  Locate, splice_loop, Spliced, IsRange, FindsRanges, splice_loop_lem,
}

-- `char::is_whitespace`: the property White_Space.
unfoldable pub is_whitespace : ℕ → Bool
is_whitespace c =
    leb 9 c && leb c 13
    || c == 0x20
    || c == 0x85
    || c == 0xa0
    || c == 0x1680
    || leb 0x2000 c && leb c 0x200a
    || c == 0x2028
    || c == 0x2029
    || c == 0x202f
    || c == 0x205f
    || c == 0x3000

unfoldable pub ends_value : ℕ → Bool
unfolding is_whitespace
ends_value c = c == b'"' || c == 39 || is_whitespace c || c == b'<' || c == b';'

abbrev pub redacted : List ℕ
redacted = codes "***REDACTED***"

-- The first value behind the marker.
unfoldable pub locate_digest : Locate
unfolding ends_value
locate_digest text = elim (find same_case (codes "PasswordDigest=") text) [
  | none ↦ none
  | some relative ↦
      let value_start = relative + 15 in
      some (value_start, value_start + end_of ends_value (drop value_start text))
]

-- The content of the first password element. Lower case keeps the length of a text, so a text without
-- a match in lower case has none in any case.
unfoldable pub locate_password : Locate
locate_password text = elim (find any_case (codes "<wsse:password") text) [
  | none ↦ none
  | some tag_start ↦ elim (find same_case (codes ">") (drop tag_start text)) [
    | none ↦ none
    | some open_end ↦
        let value_start = tag_start + open_end + 1 in
        elim (find any_case (codes "</wsse:password") (drop value_start text)) [
          | none ↦ none
          | some close ↦ some (value_start, value_start + close)
        ]
  ]
]

abbrev pub redact : List ℕ → List ℕ
redact value = redacted

unfoldable pub redact_http_text : List ℕ → List ℕ
unfolding locate_digest locate_password
redact_http_text text =
    let once = splice_loop locate_digest redact (length text) text 0 in
    splice_loop locate_password redact (length once) once 0
