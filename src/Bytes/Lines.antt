-- ===== src/Bytes/Lines.antt =====
-- `str::lines` and `split` on CR LF.
use dahua_p2p_bridge.Common.{
  ℕ, ◌≡◌, ◌≢◌, ◌<◌, All, ne→==, Bool-cases, inl, inr, ap, ◌∙◌, arith, refl, Bool, false, ◌&&◌, List,
  [], ◌∷◌, ◌++◌, ◌==◌, if◌then◌else◌,
}
use dahua_p2p_bridge.Bytes.{codes}

abbrev pub crlf : List ℕ
crlf = b'\r' ∷ b'\n' ∷ []

abbrev pub prepend : ℕ → List (List ℕ) → List (List ℕ)
prepend b [] = (b ∷ []) ∷ []
prepend b (line ∷ lines) = (b ∷ line) ∷ lines

abbrev at_newline : List ℕ → Bool
at_newline [] = false
at_newline (b ∷ bs) = b == b'\n'

-- A line ends at a line feed, and a carriage return before it belongs to the end.
unfoldable pub lines : List ℕ → List (List ℕ)
lines [] = []
lines (b ∷ bs) =
    let rest = lines bs in
    if b == b'\n' then [] ∷ rest else if b == b'\r' && at_newline bs then rest else prepend b rest

-- `split("\r\n")`
unfoldable pub split_crlf : List ℕ → List (List ℕ)
split_crlf [] = [] ∷ []
split_crlf (b ∷ []) = (b ∷ []) ∷ []
split_crlf (b ∷ (c ∷ bs)) =
    let after = split_crlf bs in
    let rest = split_crlf (c ∷ bs) in
    if b == b'\r' && c == b'\n' then [] ∷ after else prepend b rest

-- `join("\r\n")`
unfoldable pub join_crlf : List (List ℕ) → List ℕ
join_crlf [] = []
join_crlf (line ∷ []) = line
join_crlf (line ∷ (next ∷ lines)) = line ++ (crlf ++ join_crlf (next ∷ lines))

-- No line feed.
abbrev pub IsClean : List ℕ → Type 0
IsClean = All (λ b. b ≢ b'\n')

lines_step :
    (b : ℕ) (bs : List ℕ)
    → b ≢ b'\n'
    → at_newline bs ≡ false
    → lines (b ∷ bs) ≡ prepend b (lines bs)
unfolding lines
lines_step b bs ne off = ground (arith, ne, off)

at_newline-IsClean :
    (line rest : List ℕ) → IsClean line → at_newline (line ++ (b'\r' ∷ rest)) ≡ false
at_newline-IsClean [] rest h = refl
at_newline-IsClean (b ∷ line) rest h = ne→== b b'\n' h.0

clean_first :
    (line rest : List ℕ)
    → IsClean line
    → lines (line ++ (b'\r' ∷ (b'\n' ∷ rest))) ≡ line ∷ lines rest
clean_first [] rest h = unfold lines in refl
clean_first (b ∷ line) rest h =
    lines_step b (line ++ (b'\r' ∷ (b'\n' ∷ rest))) h.0 (at_newline-IsClean line (b'\n' ∷ rest) h.1)
    ∙ ap (prepend b) (clean_first line rest h.1)

clean_last : (b : ℕ) (line : List ℕ) → IsClean (b ∷ line) → lines (b ∷ line) ≡ (b ∷ line) ∷ []
clean_last b [] h = lines_step b [] h.0 refl ∙ unfold lines in refl
clean_last b (c ∷ line) h =
    lines_step b (c ∷ line) h.0 (ne→== c b'\n' h.1.0) ∙ ap (prepend b) (clean_last c line h.1)

-- A header line: not empty, ASCII, and no line feed.
abbrev pub IsHeaderLine : List ℕ → Type 0
IsHeaderLine line = (line ≢ []) × IsClean line × All (λ b. b < 0x80) line

-- `lines` takes apart what `join` puts together.
pub lines-join_crlf : (ls : List (List ℕ)) → All IsHeaderLine ls → lines (join_crlf ls) ≡ ls
unfolding join_crlf
lines-join_crlf [] h = unfold lines in refl
lines-join_crlf ([] ∷ []) h = absurd (h.0.0 refl)
lines-join_crlf ((b ∷ line) ∷ []) h = clean_last b line h.0.1
lines-join_crlf (line ∷ (next ∷ ls)) h =
    clean_first line (join_crlf (next ∷ ls)) h.0.1 ∙ ap (◌∷◌ line) (lines-join_crlf (next ∷ ls) h.1)

join_crlf-prepend : (b : ℕ) (ls : List (List ℕ)) → join_crlf (prepend b ls) ≡ b ∷ join_crlf ls
unfolding join_crlf
join_crlf-prepend b [] = refl
join_crlf-prepend b (line ∷ []) = refl
join_crlf-prepend b (line ∷ (next ∷ ls)) = refl

prepend-ne-nil : (b : ℕ) (ls : List (List ℕ)) → prepend b ls ≢ []
prepend-ne-nil b [] e = cc e
prepend-ne-nil b (line ∷ ls) e = cc e

pub split_crlf-ne-nil : (bs : List ℕ) → split_crlf bs ≢ []
unfolding split_crlf
split_crlf-ne-nil [] e = cc e
split_crlf-ne-nil (b ∷ []) e = cc e
split_crlf-ne-nil (b ∷ (c ∷ bs)) e = elim (Bool-cases (b == b'\r' && c == b'\n')) [
  | inl at ↦ cc (rw (split_crlf, at) at e)
  | inr off ↦ prepend-ne-nil b (split_crlf (c ∷ bs)) (rw (split_crlf, off) at e)
]

join_crlf_nil : (ls : List (List ℕ)) → ls ≢ [] → join_crlf ([] ∷ ls) ≡ crlf ++ join_crlf ls
unfolding join_crlf
join_crlf_nil [] h = absurd (h refl)
join_crlf_nil (line ∷ ls) h = refl

-- `join` puts together what `split` takes apart.
pub join_crlf-split_crlf : (bs : List ℕ) → join_crlf (split_crlf bs) ≡ bs
unfolding split_crlf
join_crlf-split_crlf [] = unfold join_crlf in refl
join_crlf-split_crlf (b ∷ []) = unfold join_crlf in refl
join_crlf-split_crlf (b ∷ (c ∷ bs)) = elim (Bool-cases (b == b'\r' && c == b'\n')) [
  | inl at ↦
      let front : b ≡ b'\r' = ground (arith, at) in
      let next : c ≡ b'\n' = ground (arith, at) in
      rw at (
        join_crlf_nil (split_crlf bs) (split_crlf-ne-nil bs)
        ∙ ap (◌++◌ crlf) (join_crlf-split_crlf bs)
        ∙ rw (front, next) refl)
  | inr off ↦
      rw off
        (join_crlf-prepend b (split_crlf (c ∷ bs)) ∙ ap (◌∷◌ b) (join_crlf-split_crlf (c ∷ bs)))
]

lines_test :
    lines (codes "a\r\n\r\r\nb\nc\r") ≡ codes "a" ∷ codes "\r" ∷ codes "b" ∷ codes "c\r" ∷ []
unfolding lines
lines_test = refl

split_crlf_test :
    split_crlf (codes "a\r\n\r\r\nb\n\r\n") ≡ codes "a" ∷ codes "\r" ∷ codes "b\n" ∷ [] ∷ []
unfolding split_crlf
split_crlf_test = refl
