-- ===== src/Http/Response/Lines.antt =====
-- The header lines that `rewrite_http_response` writes: they are lines, and say the length.
use dahua_p2p_bridge.Common.{
  ℕ, ◌<◌, ◌≡◌, ◌≢◌, refl, sym, ap, ◌∙◌, inl, inr, true, false, Bool-cases, Option, none, some,
  Option-cases, List, [], ◌∷◌, ◌++◌, All, any, map, ◌==◌, ==→eq, arith,
}
use mathlib.Core.List.{map-append}
use mathlib.Core.Bool.{false≢true}
use dahua_p2p_bridge.Utf8.{from_utf8_lossy, is_utf8_ascii, from_utf8_lossy-is_utf8}
use dahua_p2p_bridge.Bytes.{
  codes, any_case, same_case, to_ascii_lowercase, eq_bytes, starts_with, split_once,
}
use dahua_p2p_bridge.Bytes.Decimal.{
  to_decimal, to_decimal-AreDigits, AreDigits, parse_unsigned, parse_unsigned-to_decimal,
}
use dahua_p2p_bridge.Bytes.Trim.{trim_digits}
use dahua_p2p_bridge.Bytes.Lines.{crlf, join_crlf, IsClean, IsHeaderLine}
use dahua_p2p_bridge.Http.Message.{usize_limit, line_length, find_length, or_else}
use dahua_p2p_bridge.Http.Response.{is_length_line, length_line, rewrite_lines, header_lines}

-- The line that `rewrite_http_response` writes is read back.
line_length-length_line : (n : ℕ) → n < usize_limit → line_length (length_line n) ≡ some n
unfolding line_length split_once eq_bytes any_case
line_length-length_line n h =
    ap (parse_unsigned usize_limit) (trim_digits (to_decimal n) (to_decimal-AreDigits n))
    ∙ parse_unsigned-to_decimal usize_limit n h

split_once_parts :
    (c : ℕ) (bs before after : List ℕ)
    → split_once c bs ≡ some (before, after)
    → bs ≡ before ++ (c ∷ after)
unfolding split_once
split_once_parts c [] before after h = cc h
split_once_parts c (b ∷ bs) before after h = elim (Bool-cases (b == c)) [
  | inl here ↦
      let same : ◌≡◌ {A = List ℕ × List ℕ} ([], bs) (before, after) =
        cc (rw (split_once, here) at h) in
      rw (ap (λ x. x.0) (sym same), ap (λ x. x.1) (sym same), ==→eq b c here) refl
  | inr away ↦ elim (Option-cases (split_once c bs)) [
    | inl e ↦ cc (rw (split_once, away, e) at h)
    | inr ((front, back), e) ↦
        let same : ◌≡◌ {A = List ℕ × List ℕ} (b ∷ front, back) (before, after) =
          cc (rw (split_once, away, e) at h) in
        ap (◌∷◌ b) (split_once_parts c bs front back e) ∙ ap (λ x. x.0 ++ (c ∷ x.1)) same
  ]
]

eq_bytes-any_case :
    (xs ys : List ℕ)
    → eq_bytes any_case xs ys ≡ true
    → map to_ascii_lowercase xs ≡ map to_ascii_lowercase ys
unfolding eq_bytes any_case
eq_bytes-any_case [] [] h = refl
eq_bytes-any_case [] (y ∷ ys) h = cc h
eq_bytes-any_case (x ∷ xs) [] h = cc h
eq_bytes-any_case (x ∷ xs) (y ∷ ys) h = ground (arith, eq_bytes-any_case xs ys)

named_length :
    (rest : List ℕ)
    → starts_with same_case
        (codes "content-length:")
        (codes "content-length" ++ (to_ascii_lowercase b':' ∷ rest))
      ≡ true
unfolding starts_with to_ascii_lowercase
named_length rest = refl

-- A line with that name is replaced.
is_length_line-name :
    (line name value : List ℕ)
    → line ≡ name ++ (b':' ∷ value)
    → eq_bytes any_case name (codes "content-length") ≡ true
    → is_length_line line ≡ true
unfolding is_length_line
is_length_line-name line name value split same =
    let lowered : map to_ascii_lowercase name ≡ codes "content-length" =
      eq_bytes-any_case name (codes "content-length") same ∙ unfold to_ascii_lowercase in refl in
    ap (λ x. starts_with same_case (codes "content-length:") (map to_ascii_lowercase x)) split
    ∙ ap (starts_with same_case (codes "content-length:")) (
        map-append to_ascii_lowercase name (b':' ∷ value)
        ∙ ap (λ x. x ++ (to_ascii_lowercase b':' ∷ map to_ascii_lowercase value)) lowered)
    ∙ named_length (map to_ascii_lowercase value)

-- A line that is not replaced says nothing of the length.
line_length-is_length_line : (line : List ℕ) → is_length_line line ≡ false → line_length line ≡ none
unfolding line_length
line_length-is_length_line line off = elim (Option-cases (split_once b':' line)) [
  | inl e ↦ rw (line_length, e) refl
  | inr ((name, value), e) ↦ elim (Bool-cases (eq_bytes any_case name (codes "content-length"))) [
    | inr other ↦ rw (line_length, e, other) refl
    | inl same ↦
        let replaced =
          is_length_line-name line name value (split_once_parts b':' line name value e) same in
        absurd (false≢true (sym off ∙ replaced))
  ]
]

find_length-cons :
    (line : List ℕ) (ls : List (List ℕ)) (o : Option ℕ)
    → line_length line ≡ o
    → find_length (line ∷ ls) ≡ or_else o (find_length ls)
unfolding find_length
find_length-cons line ls o e = ap (λ x. or_else x (find_length ls)) e

-- The header of a rewritten response says the length of its body.
find_length-rewrite_lines :
    (n : ℕ) (ls : List (List ℕ))
    → n < usize_limit
    → any is_length_line ls ≡ true
    → find_length (rewrite_lines n ls) ≡ some n
unfolding rewrite_lines
find_length-rewrite_lines n [] h found = cc found
find_length-rewrite_lines n (line ∷ ls) h found = elim (Bool-cases (is_length_line line)) [
  | inl is ↦
      rw is (
        find_length-cons (length_line n) (rewrite_lines n ls) (some n)
          (line_length-length_line n h))
  | inr off ↦ rw off (
      find_length-cons line (rewrite_lines n ls) none (line_length-is_length_line line off)
      ∙ find_length-rewrite_lines n ls h (rw off at found))
]

find_length-append :
    (n : ℕ) (ls : List (List ℕ))
    → n < usize_limit
    → any is_length_line ls ≡ false
    → find_length (ls ++ (length_line n ∷ [])) ≡ some n
find_length-append n [] h gone =
    find_length-cons (length_line n) [] (some n) (line_length-length_line n h)
find_length-append n (line ∷ ls) h gone = elim (Bool-cases (is_length_line line)) [
  | inl is ↦ absurd (false≢true (sym (rw is at gone)))
  | inr off ↦
      find_length-cons line (ls ++ (length_line n ∷ [])) none (line_length-is_length_line line off)
      ∙ find_length-append n ls h (rw off at gone)
]

pub find_length-header_lines :
    (n : ℕ) (ls : List (List ℕ)) → n < usize_limit → find_length (header_lines n ls) ≡ some n
unfolding header_lines
find_length-header_lines n ls h = elim (Bool-cases (any is_length_line ls)) [
  | inl found ↦ rw found (find_length-rewrite_lines n ls h found)
  | inr gone ↦ rw gone (find_length-append n ls h gone)
]

append-All : (P : ℕ → Type 0) (xs ys : List ℕ) → All P xs → All P ys → All P (xs ++ ys)
append-All P [] ys h k = k
append-All P (x ∷ xs) ys h k = (h.0, append-All P xs ys h.1 k)

digits-IsClean : (ds : List ℕ) → AreDigits ds → IsClean ds
digits-IsClean [] h = tt
digits-IsClean (d ∷ ds) h =
    let digit = h.0 in ((λ e. ground (arith, digit, e)), digits-IsClean ds h.1)

digits_ascii : (ds : List ℕ) → AreDigits ds → All (λ b. b < 0x80) ds
digits_ascii [] h = tt
digits_ascii (d ∷ ds) h = let digit = h.0 in (ground (arith, digit), digits_ascii ds h.1)

-- The lines stay lines.
length_line-IsHeaderLine : (n : ℕ) → IsHeaderLine (length_line n)
length_line-IsHeaderLine n = (
  λ e. cc e,
  append-All (λ b. b ≢ b'\n') (codes "Content-Length: ") (to_decimal n) (ground arith)
      (digits-IsClean (to_decimal n) (to_decimal-AreDigits n)),
  append-All (λ b. b < 0x80) (codes "Content-Length: ") (to_decimal n) (omega arith)
      (digits_ascii (to_decimal n) (to_decimal-AreDigits n)),
)

rewrite_lines-IsHeaderLine :
    (n : ℕ) (ls : List (List ℕ)) → All IsHeaderLine ls → All IsHeaderLine (rewrite_lines n ls)
unfolding rewrite_lines
rewrite_lines-IsHeaderLine n [] h = tt
rewrite_lines-IsHeaderLine n (line ∷ ls) h = elim (Bool-cases (is_length_line line)) [
  | inl is ↦ rw is (length_line-IsHeaderLine n, rewrite_lines-IsHeaderLine n ls h.1)
  | inr off ↦ rw off (h.0, rewrite_lines-IsHeaderLine n ls h.1)
]

append-IsHeaderLine :
    (line : List ℕ) (ls : List (List ℕ))
    → All IsHeaderLine ls
    → IsHeaderLine line
    → All IsHeaderLine (ls ++ (line ∷ []))
append-IsHeaderLine line [] h k = (k, tt)
append-IsHeaderLine line (x ∷ ls) h k = (h.0, append-IsHeaderLine line ls h.1 k)

pub header_lines-IsHeaderLine :
    (n : ℕ) (ls : List (List ℕ)) → All IsHeaderLine ls → All IsHeaderLine (header_lines n ls)
unfolding header_lines
header_lines-IsHeaderLine n ls h = elim (Bool-cases (any is_length_line ls)) [
  | inl found ↦ rw found (rewrite_lines-IsHeaderLine n ls h)
  | inr gone ↦ rw gone (append-IsHeaderLine (length_line n) ls h (length_line-IsHeaderLine n))
]

-- A header of such lines is ASCII.
join_crlf_ascii : (ls : List (List ℕ)) → All IsHeaderLine ls → All (λ b. b < 0x80) (join_crlf ls)
unfolding join_crlf
join_crlf_ascii [] h = tt
join_crlf_ascii (line ∷ []) h = h.0.2
join_crlf_ascii (line ∷ (next ∷ ls)) h =
    append-All (λ b. b < 0x80) line (crlf ++ join_crlf (next ∷ ls)) h.0.2
      (omega arith, (omega arith, join_crlf_ascii (next ∷ ls) h.1))

pub lossy-join_crlf :
    (ls : List (List ℕ)) → All IsHeaderLine ls → from_utf8_lossy (join_crlf ls) ≡ join_crlf ls
lossy-join_crlf ls h =
    from_utf8_lossy-is_utf8 (join_crlf ls) (is_utf8_ascii (join_crlf ls) (join_crlf_ascii ls h))
