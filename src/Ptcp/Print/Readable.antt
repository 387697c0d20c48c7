-- ===== src/Ptcp/Print/Readable.antt =====
-- What can be read back from the log, and which payloads stand in it as text.
use dahua_p2p_bridge.Common.{
  ℕ, zero, suc, ◌+◌, ◌-◌, ◌*◌, ◌/◌, ◌%◌, ◌≤◌, ◌<◌, ◌≡◌, refl, ap, inl, inr, true, false, Bool-cases,
  List, [], ◌∷◌, ◌++◌, All, any, length, take, leb, ltb, if◌then◌else◌, arith,
}
use mathlib.Core.Bool.{false≢true}
use dahua_p2p_bridge.Utf8.{from_utf8_lossy}
use dahua_p2p_bridge.Bytes.{codes, same_case, eq_bytes, starts_with}
use dahua_p2p_bridge.Bytes.Decimal.{to_decimal}
use dahua_p2p_bridge.Ptcp.Wire.{PtcpPayload, command, payload}
use dahua_p2p_bridge.Ptcp.Print.{
  hex_digit, hex_word, dump, print_payload, print_body, windows, escaped_mark, http_starts,
  looks_like_http, try_print_data,
}

abbrev digit_value : ℕ → ℕ
digit_value c = if ltb c b'a' then c - b'0' else c - b'a' + 10

-- Two digits for each byte, and one character between two bytes.
unfoldable pub read_dump : List ℕ → List ℕ
read_dump [] = []
read_dump (h ∷ []) = []
read_dump (h ∷ (l ∷ [])) = (digit_value h * 16 + digit_value l) ∷ []
read_dump (h ∷ (l ∷ (space ∷ rest))) = (digit_value h * 16 + digit_value l) ∷ read_dump rest

digit_value-hex_digit : (d : ℕ) → d < 16 → digit_value (hex_digit d) ≡ d
digit_value-hex_digit d h = ground (arith, h)

byte_value :
    (b : ℕ) → b < 256 → digit_value (hex_digit (b / 16)) * 16 + digit_value (hex_digit (b % 16)) ≡ b
byte_value b h =
    rw
      (
        digit_value-hex_digit (b / 16) (omega (arith, h)),
        digit_value-hex_digit (b % 16) (omega arith),
      )
      (omega arith)

read_dump-dump : (bytes : List ℕ) → All (λ b. b < 256) bytes → read_dump (dump bytes) ≡ bytes
unfolding read_dump dump
read_dump-dump [] h = refl
read_dump-dump (b ∷ []) h = rw (byte_value b h.0) refl
read_dump-dump (b ∷ (c ∷ bytes)) h =
    rw (byte_value b h.0) (ap (◌∷◌ b) (read_dump-dump (c ∷ bytes) h.1))

All-take : (n : ℕ) (bytes : List ℕ) → All (λ b. b < 256) bytes → All (λ b. b < 256) (take n bytes)
All-take zero bytes h = tt
All-take (suc n) [] h = tt
All-take (suc n) (b ∷ bytes) h = (h.0, All-take n bytes h.1)

-- What the log of a body says of its bytes can be read back: all bytes of a command, and of a payload
-- its realm, its length and its first 16 bytes, with three dots exactly if there are more.
pub print_body-read_dump :
    (p : PtcpPayload) (bytes : List ℕ)
    → All (λ b. b < 256) p.bytes
    → All (λ b. b < 256) bytes
    → ((shown : List ℕ) × (print_body (command bytes) ≡ codes "Command([" ++ (shown ++ codes "])"))
        × (read_dump shown ≡ bytes))
      × ((shown : List ℕ) × (print_body (payload p)
            ≡ codes "length: "
              ++ (to_decimal (length p.bytes)
                  ++ (codes ", realm: 0x"
                      ++ (hex_word p.realm
                          ++ (codes ", data: ["
                              ++ (shown
                                  ++ ((if ltb 16 (length p.bytes) then codes " ..." else [])
                                      ++ codes "]")))))))
          × (read_dump shown ≡ take 16 p.bytes))
unfolding print_body print_payload
print_body-read_dump p bytes h k = (
  (dump bytes, refl, read_dump-dump bytes k),
  (dump (take 16 p.bytes), refl, read_dump-dump (take 16 p.bytes) (All-take 16 p.bytes h)),
)

eq_bytes-length : (xs ys : List ℕ) → eq_bytes same_case xs ys ≡ true → length xs ≡ length ys
unfolding eq_bytes
eq_bytes-length [] [] h = refl
eq_bytes-length [] (b ∷ ys) h = absurd (false≢true h)
eq_bytes-length (a ∷ xs) [] h = absurd (false≢true h)
eq_bytes-length (a ∷ xs) (b ∷ ys) h = elim (Bool-cases (same_case a b)) [
  | inl same ↦ ap suc (eq_bytes-length xs ys (rw same at h))
  | inr other ↦ cc (rw other at h)
]

length-take-le : (n : ℕ) (xs : List ℕ) → length (take n xs) ≤ n
length-take-le zero xs = omega arith
length-take-le (suc n) [] = omega arith
length-take-le (suc n) (b ∷ xs) = omega (arith, length-take-le n xs)

-- No window of four bytes is the mark, which has eight.
windows-escaped_mark :
    (bytes : List ℕ)
    → any (λ window. eq_bytes same_case window escaped_mark) (windows 4 bytes) ≡ false
unfolding windows
windows-escaped_mark [] = refl
windows-escaped_mark (b ∷ bytes) = elim (Bool-cases (leb 4 (length (b ∷ bytes)))) [
  | inr short ↦ rw short (windows-escaped_mark bytes)
  | inl long ↦ elim (Bool-cases (eq_bytes same_case (take 4 (b ∷ bytes)) escaped_mark)) [
    | inl same ↦ absurd (
        omega (
          arith,
          eq_bytes-length (take 4 (b ∷ bytes)) escaped_mark same,
          length-take-le 4 (b ∷ bytes),
        ))
    | inr other ↦ rw (long, other) (windows-escaped_mark bytes)
  ]
]

-- A payload is printed as text exactly if it starts with one of five words, whatever stands behind
-- them: the mark that is looked for in its windows is never found. Any other payload, such as one of
-- interleaved media, is printed by its length alone.
pub try_print_data-http_starts :
    (p : PtcpPayload)
    → (try_print_data (payload p)
        ≡ (if any (λ start. starts_with same_case start p.bytes) http_starts
            then from_utf8_lossy p.bytes
            else codes "PTCP payload: " ++ (to_decimal (length p.bytes) ++ codes " bytes (binary)"))
          ∷ [])
      × ((media : List ℕ) → p.bytes ≡ b'$' ∷ media → looks_like_http p.bytes ≡ false)
unfolding try_print_data looks_like_http
try_print_data-http_starts p = (
  rw (windows-escaped_mark p.bytes) refl,
  λ media e. rw (windows-escaped_mark p.bytes, e) (unfold starts_with in refl),
)
