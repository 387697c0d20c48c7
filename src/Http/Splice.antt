-- ===== src/Http/Splice.antt =====
-- The loop that `replace_url_authorities` and `redact_http_text` share: search from an index, replace
-- a range of the buffer in place, and go on behind what was put there.
use dahua_p2p_bridge.Common.{
  ℕ, zero, suc, ◌+◌, ◌-◌, ◌≤◌, ◌<◌, ◌≡◌, refl, sym, ap, ◌∙◌, inl, inr, Option, none, some,
  Option-cases, List, [], ◌∷◌, ◌++◌, append_assoc, length, length-append, take, drop,
  take-append-drop, arith,
}

-- Where the range to replace starts and ends, in the text behind the index; none ends the loop.
abbrev pub Locate : Type 0
Locate = List ℕ → Option (ℕ × ℕ)

-- `splice`, or `replace_range`.
abbrev pub splice : ℕ → ℕ → List ℕ → List ℕ → List ℕ
splice start end new output = take start output ++ (new ++ drop end output)

unfoldable pub splice_loop : Locate → (List ℕ → List ℕ) → ℕ → List ℕ → ℕ → List ℕ
splice_loop locate replace zero output search_from = output
splice_loop locate replace (suc fuel) output search_from = elim (locate (drop search_from output)) [
  | none ↦ output
  | some (s, e) ↦
      let start = search_from + s in
      let end = search_from + e in
      let new = replace (take (end - start) (drop start output)) in
      splice_loop locate replace fuel (splice start end new output) (start + length new)
]

-- The range lies in the text, and ends behind its front.
pub record IsRange (text : List ℕ) (s e : ℕ) : Type 0 where
  pub ordered : s ≤ e
  pub inside : e ≤ length text
  pub advances : 0 < e

abbrev pub FindsRanges : Locate → Type 0
FindsRanges locate = (text : List ℕ) (s e : ℕ) → locate text ≡ some (s, e) → IsRange text s e

-- What the loop is for, on the text as a value: each range that is found in what is left becomes its
-- replacement, and all else stays.
pub data Spliced (locate : Locate) (replace : List ℕ → List ℕ) : List ℕ → List ℕ → Type 0 where
  ends : {text : List ℕ} → locate text ≡ none → Spliced locate replace text text
  replaces :
      {text : List ℕ} (before value rest rest' : List ℕ)
      → text ≡ before ++ (value ++ rest)
      → locate text ≡ some (length before, length before + length value)
      → Spliced locate replace rest rest'
      → Spliced locate replace text (before ++ (replace value ++ rest'))

-- Lists cut by numbers.
module _ {A : Type 0} where
  pub length-take : (n : ℕ) (xs : List A) → n ≤ length xs → length (take n xs) ≡ n
  length-take zero xs h = refl
  length-take (suc n) [] h = absurd (omega arith)
  length-take (suc n) (x ∷ xs) h = omega (arith, length-take n xs)

  pub length-drop : (n : ℕ) (xs : List A) → length (drop n xs) ≡ length xs - n
  length-drop zero xs = omega arith
  length-drop (suc n) [] = omega arith
  length-drop (suc n) (x ∷ xs) = omega (arith, length-drop n xs)

  pub take-append_length : (xs ys : List A) → take (length xs) (xs ++ ys) ≡ xs
  take-append_length [] ys = refl
  take-append_length (x ∷ xs) ys = ap (◌∷◌ x) (take-append_length xs ys)

  pub drop-append_length : (xs ys : List A) → drop (length xs) (xs ++ ys) ≡ ys
  drop-append_length [] ys = refl
  drop-append_length (x ∷ xs) ys = drop-append_length xs ys

  take_at : (n : ℕ) (xs ys : List A) → n ≡ length xs → take n (xs ++ ys) ≡ xs
  take_at n xs ys e = rw e (take-append_length xs ys)

  drop_at : (n : ℕ) (xs ys : List A) → n ≡ length xs → drop n (xs ++ ys) ≡ ys
  drop_at n xs ys e = rw e (drop-append_length xs ys)

-- The three parts of a text at a range.
cut :
    (text : List ℕ) (s e : ℕ)
    → IsRange text s e
    → (before : List ℕ) × (value : List ℕ) × (rest : List ℕ) × (text ≡ before ++ (value ++ rest))
      × (length before ≡ s)
      × (length before + length value ≡ e)
      × (length rest + e ≡ length text)
cut text s e r = (
  take s text,
  take (e - s) (drop s text),
  drop (e - s) (drop s text),
  sym (take-append-drop s text)
      ∙ ap (◌++◌ (take s text)) (sym (take-append-drop (e - s) (drop s text))),
  length-take s text (omega (arith, r.ordered, r.inside)),
  omega (
    arith,
    length-take s text (omega (arith, r.ordered, r.inside)),
    length-take (e - s) (drop s text) (omega (arith, length-drop s text, r.ordered, r.inside)),
    r.ordered,
  ),
  omega (arith, length-drop s text, length-drop (e - s) (drop s text), r.ordered, r.inside),
)

module _ (locate : Locate) (replace : List ℕ → List ℕ) where
  -- One round, on a text whose parts are known.
  splice_round :
      (fuel : ℕ) (done before value rest : List ℕ)
      → locate (before ++ (value ++ rest)) ≡ some (length before, length before + length value)
      → splice_loop locate replace (suc fuel) (done ++ (before ++ (value ++ rest))) (length done)
        ≡ splice_loop locate replace fuel
            (((done ++ before) ++ replace value) ++ rest)
            (length ((done ++ before) ++ replace value))
  unfolding splice_loop
  splice_round fuel done before value rest found =
      let text : List ℕ = before ++ (value ++ rest) in
      let front : List ℕ = done ++ before in
      let start : ℕ = length done + length before in
      let end : ℕ = length done + (length before + length value) in
      let start_is : start ≡ length front = sym (length-append done before) in
      let whole : done ++ text ≡ front ++ (value ++ rest) = sym (append_assoc done before _) in
      let whole' : done ++ text ≡ (front ++ value) ++ rest =
        whole ∙ sym (append_assoc front value rest) in
      let left : take start (done ++ text) ≡ front =
        ap (take start) whole ∙ take_at start front (value ++ rest) start_is in
      let middle : take (end - start) (drop start (done ++ text)) ≡ value =
        ap (λ x. take (end - start) (drop start x)) whole
        ∙ ap (take (end - start)) (drop_at start front (value ++ rest) start_is)
        ∙ take_at (end - start) value rest (omega arith) in
      let right : drop end (done ++ text) ≡ rest =
        ap (drop end) whole'
        ∙ drop_at end (front ++ value) rest
            (omega (arith, length-append front value, length-append done before)) in
      let at : drop (length done) (done ++ text) ≡ text = drop-append_length done text in
      let new : List ℕ = replace value in
      let again : (a : List ℕ) (b c : List ℕ)
          → a ≡ front
          → b ≡ value
          → c ≡ rest
          → splice_loop locate replace fuel (a ++ (replace b ++ c)) (start + length (replace b))
            ≡ splice_loop locate replace fuel ((front ++ new) ++ rest) (length (front ++ new)) =
        λ a b c ea eb ec.
          rw (ea, eb, ec, append_assoc front new rest, length-append front new, start_is) refl in
      rw (splice_loop, at, found) (again _ _ _ left middle right)

  -- With a round for each byte the loop ends by itself, and has spliced the text behind the index.
  splice_loop-Spliced :
      (fuel : ℕ) (done text : List ℕ)
      → FindsRanges locate
      → length text ≤ fuel
      → (out : List ℕ) × (splice_loop locate replace fuel (done ++ text) (length done)
          ≡ done ++ out)
        × Spliced locate replace text out
  unfolding splice_loop
  splice_loop-Spliced zero done text ranges h = elim (Option-cases (locate text)) [
    | inl e ↦ (text, refl, ends e)
    | inr ((s, e), found) ↦
        let r = ranges text s e found in absurd (omega (arith, r.inside, r.advances, h))
  ]
  splice_loop-Spliced (suc fuel) done text ranges h = elim (Option-cases (locate text)) [
    | inl e ↦ (text, rw (splice_loop, drop-append_length done text, e) refl, ends e)
    | inr ((s, e), found) ↦
        let r = ranges text s e found in
        let (before, value, rest, whole, s_is, e_is, left) = cut text s e r in
        let here : locate text ≡ some (length before, length before + length value) =
          rw (e_is, s_is) found in
        let (out, goes, spliced) =
          splice_loop-Spliced fuel ((done ++ before) ++ replace value) rest ranges
            (omega (arith, left, r.advances, h)) in
        (
          before ++ (replace value ++ out),
          ap (λ x. splice_loop locate replace (suc fuel) (done ++ x) (length done)) whole
              ∙ splice_round fuel done before value rest (ap locate (sym whole) ∙ here)
              ∙ goes
              ∙ append_assoc (done ++ before) (replace value) out
              ∙ append_assoc done before (replace value ++ out),
          replaces before value rest out whole here spliced,
        )
  ]

  pub splice_loop_lem :
      (text : List ℕ)
      → FindsRanges locate
      → Spliced locate replace text (splice_loop locate replace (length text) text 0)
  splice_loop_lem text ranges =
      let (out, goes, spliced) = splice_loop-Spliced (length text) [] text ranges (omega arith) in
      rw goes spliced
