-- ===== src/Http/Message/Header.antt =====
-- Where the header of a message ends that is put together from lines.
use dahua_p2p_bridge.Common.{
  ℕ, ◌≡◌, ◌≢◌, refl, sym, ap, ◌∙◌, false, Option, none, some, List, [], ◌∷◌, ◌++◌, append_assoc,
  length, length-append, All, arith,
}
use dahua_p2p_bridge.Bytes.{same_case, starts_with, find}
use dahua_p2p_bridge.Bytes.Search.{shift, shift-shift, find_step}
use dahua_p2p_bridge.Bytes.Lines.{crlf, join_crlf, IsClean, IsHeaderLine}
use dahua_p2p_bridge.Http.Message.{header_mark, header_end}

-- The first byte is no line feed.
abbrev NoFeed : List ℕ → Type 0
NoFeed [] = Unit {0}
NoFeed (b ∷ bs) = b ≢ b'\n'

-- No mark stands where the second byte is no line feed.
skip_byte : (b : ℕ) (bs : List ℕ) → NoFeed bs → header_end (b ∷ bs) ≡ shift 1 (header_end bs)
unfolding starts_with
skip_byte b [] h = find_step same_case header_mark b [] (ground arith)
skip_byte b (c ∷ bs) h = find_step same_case header_mark b (c ∷ bs) (ground (arith, h))

NoFeed-clean : (line rest : List ℕ) → IsClean line → NoFeed (line ++ (b'\r' ∷ rest))
NoFeed-clean [] rest h = λ e. absurd (omega (arith, e))
NoFeed-clean (b ∷ line) rest h = h.0

skip_clean :
    (line rest : List ℕ)
    → IsClean line
    → header_end (line ++ (b'\r' ∷ rest)) ≡ shift (length line) (header_end (b'\r' ∷ rest))
skip_clean [] rest h = shift_zero (header_end (b'\r' ∷ rest))
  where
    shift_zero : (o : Option ℕ) → o ≡ shift 0 o
    shift_zero none = refl
    shift_zero (some i) = ap some (omega arith)
skip_clean (b ∷ line) rest h =
    skip_byte b (line ++ (b'\r' ∷ rest)) (NoFeed-clean line rest h.1)
    ∙ ap (shift 1) (skip_clean line rest h.1)
    ∙ shift-shift 1 (length line) (header_end (b'\r' ∷ rest))
    ∙ ap (λ n. shift n (header_end (b'\r' ∷ rest))) (omega arith)

-- No mark stands at a line end if the second byte behind it is no line feed.
skip_crlf :
    (b : ℕ) (bs : List ℕ)
    → NoFeed bs
    → header_end (b'\r' ∷ (b'\n' ∷ (b ∷ bs))) ≡ shift 2 (header_end (b ∷ bs))
unfolding starts_with
skip_crlf b bs h =
    find_step same_case header_mark b'\r' (b'\n' ∷ (b ∷ bs)) (off bs h)
    ∙ ap (shift 1) (find_step same_case header_mark b'\n' (b ∷ bs) refl)
    ∙ shift-shift 1 1 (header_end (b ∷ bs))
  where
    off :
        (tail : List ℕ)
        → NoFeed tail
        → starts_with same_case header_mark (b'\r' ∷ (b'\n' ∷ (b ∷ tail))) ≡ false
    off [] k = ground arith
    off (c ∷ tail) k = ground (arith, k)

join_crlf-head :
    (b : ℕ) (line : List ℕ) (ls : List (List ℕ)) (rest : List ℕ)
    → join_crlf ((b ∷ line) ∷ ls) ++ rest ≡ b ∷ (join_crlf (line ∷ ls) ++ rest)
unfolding join_crlf
join_crlf-head b line [] rest = refl
join_crlf-head b line (next ∷ ls) rest = refl

NoFeed-join_crlf :
    (line : List ℕ) (ls : List (List ℕ)) (rest : List ℕ)
    → IsClean line
    → NoFeed (join_crlf (line ∷ ls) ++ (b'\r' ∷ rest))
unfolding join_crlf
NoFeed-join_crlf line [] rest h = NoFeed-clean line rest h
NoFeed-join_crlf [] (next ∷ ls) rest h = λ e. absurd (omega (arith, e))
NoFeed-join_crlf (b ∷ line) (next ∷ ls) rest h = h.0

-- The lines of a header are followed by the first empty line.
pub header_end-join_crlf :
    (line : List ℕ) (ls : List (List ℕ)) (body : List ℕ)
    → All IsHeaderLine (line ∷ ls)
    → header_end (join_crlf (line ∷ ls) ++ (header_mark ++ body))
      ≡ some (length (join_crlf (line ∷ ls)))
unfolding join_crlf
header_end-join_crlf line [] body h =
    let here : header_end (header_mark ++ body) ≡ some 0 = unfold find starts_with in refl in
    skip_clean line (b'\n' ∷ (b'\r' ∷ (b'\n' ∷ body))) h.0.1
    ∙ ap (shift (length line)) here
    ∙ ap some (omega arith)
header_end-join_crlf line ([] ∷ ls) body h = absurd (h.1.0.0 refl)
header_end-join_crlf line ((b ∷ next) ∷ ls) body h =
    let rest : List ℕ = header_mark ++ body in
    let joined : List ℕ = join_crlf ((b ∷ next) ∷ ls) in
    let tail : List ℕ = join_crlf (next ∷ ls) ++ rest in
    let head : joined ++ rest ≡ b ∷ tail = join_crlf-head b next ls rest in
    ap header_end (append_assoc line (crlf ++ joined) rest)
    ∙ skip_clean line (b'\n' ∷ (joined ++ rest)) h.0.1
    ∙ ap (λ x. shift (length line) (header_end (b'\r' ∷ (b'\n' ∷ x)))) head
    ∙ ap (shift (length line)) (
        skip_crlf b tail (NoFeed-join_crlf next ls _ h.1.0.1.1)
        ∙ ap (λ x. shift 2 (header_end x)) (sym head)
        ∙ ap (shift 2) (header_end-join_crlf (b ∷ next) ls body h.1))
    ∙ ap some (omega (arith, length-append line (crlf ++ joined)))
