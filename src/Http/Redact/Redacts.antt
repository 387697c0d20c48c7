-- ===== src/Http/Redact/Redacts.antt =====
-- What `redact_http_text` hides.
use dahua_p2p_bridge.Common.{
  ℕ, ◌+◌, ◌≡◌, sym, ap, ◌∙◌, inl, inr, false, none, some, Option-cases, List, ◌++◌, length, drop,
  All, arith,
}
use mathlib.Core.Option.{some-injective}
use dahua_p2p_bridge.Bytes.{codes, same_case, any_case, find, end_of}
use dahua_p2p_bridge.Bytes.Search.{StartsWith, find_inside, end_of-le, take-end_of, drop-end_of}
use dahua_p2p_bridge.Http.Splice.{
  splice_loop, Spliced, ends, replaces, FindsRanges, splice_loop_lem, length-drop,
  take-append_length, drop-append_length,
}
use dahua_p2p_bridge.Http.Redact.{
  ends_value, redacted, locate_digest, locate_password, redact, redact_http_text,
}

abbrev digest_mark : List ℕ
digest_mark = codes "PasswordDigest="

abbrev open_tag : List ℕ
open_tag = codes "<wsse:password"

abbrev close_tag : List ℕ
close_tag = codes "</wsse:password"

-- `value` reaches from the first marker to the first character that ends a value, or to the end.
pub record IsDigest (text before value rest : List ℕ) : Type 0 where
  pub splits : text ≡ before ++ (value ++ rest)
  pub first : ℕ
  pub found : find same_case digest_mark text ≡ some first
  pub front : length before ≡ first + length digest_mark
  pub open_value : All (λ c. ends_value c ≡ false) value
  pub closed_value : StartsWith ends_value rest

-- `value` reaches from the end of the first opening tag to the first closing tag behind it.
pub record IsPassword (text before value rest : List ℕ) : Type 0 where
  pub splits : text ≡ before ++ (value ++ rest)
  pub tag : ℕ
  pub tag_end : ℕ
  pub found : find any_case open_tag text ≡ some tag
  pub tag_ends : find same_case (codes ">") (drop tag text) ≡ some tag_end
  pub front : length before ≡ tag + tag_end + 1
  pub closes : find any_case close_tag (value ++ rest) ≡ some (length value)

-- No element of a password is left that is opened and closed.
abbrev pub HasNoPassword : List ℕ → Type 0
HasNoPassword text =
    (tag tag_end close : ℕ)
    → find any_case open_tag text ≡ some tag
    → find same_case (codes ">") (drop tag text) ≡ some tag_end
    → ¬ (find any_case close_tag (drop (tag + tag_end + 1) text) ≡ some close)

-- `text'` is `text` with the value of each marker hidden, from the front, and nothing else changed.
pub data RedactsDigests : List ℕ → List ℕ → Type 0 where
  no_digest : {text : List ℕ} → find same_case digest_mark text ≡ none → RedactsDigests text text
  digest :
      {text : List ℕ} (before value rest rest' : List ℕ)
      → IsDigest text before value rest
      → RedactsDigests rest rest'
      → RedactsDigests text (before ++ (redacted ++ rest'))

pub data RedactsPasswords : List ℕ → List ℕ → Type 0 where
  no_password : {text : List ℕ} → HasNoPassword text → RedactsPasswords text text
  password :
      {text : List ℕ} (before value rest rest' : List ℕ)
      → IsPassword text before value rest
      → RedactsPasswords rest rest'
      → RedactsPasswords text (before ++ (redacted ++ rest'))

-- The ways that `locate_digest` ends.
digest_located :
    (text : List ℕ) (s e : ℕ)
    → locate_digest text ≡ some (s, e)
    → (first : ℕ) × (find same_case digest_mark text ≡ some first)
      × (s ≡ first + 15)
      × (e ≡ s + end_of ends_value (drop s text))
unfolding locate_digest
digest_located text s e h = elim (Option-cases (find same_case digest_mark text)) [
  | inl gone ↦ cc (rw (locate_digest, gone) at h)
  | inr (first, at) ↦
      let same = some-injective _ _ (rw (locate_digest, at) at h) in
      (
        first,
        at,
        sym (ap (λ x. x.0) same),
        sym (ap (λ x. x.1) same)
            ∙ ap (λ k. k + end_of ends_value (drop k text)) (ap (λ x. x.0) same),
      )
]

not_digest_located :
    (text : List ℕ) → locate_digest text ≡ none → find same_case digest_mark text ≡ none
unfolding locate_digest
not_digest_located text h = elim (Option-cases (find same_case digest_mark text)) [
  | inl gone ↦ gone
  | inr (first, at) ↦ cc (rw (locate_digest, at) at h)
]

locate_digest-FindsRanges : FindsRanges locate_digest
locate_digest-FindsRanges text s e h =
    let (first, at, s_is, e_is) = digest_located text s e h in
    let inside = (find_inside same_case digest_mark text first at).0 in
    let stop = end_of-le ends_value (drop s text) in
    let left = length-drop s text in
    record {
      ordered = omega (arith, e_is);
      inside = omega (arith, e_is, s_is, inside, stop, left);
      advances = omega (arith, e_is, s_is);
    }

located-IsDigest :
    (text before value rest : List ℕ)
    → text ≡ before ++ (value ++ rest)
    → locate_digest text ≡ some (length before, length before + length value)
    → IsDigest text before value rest
located-IsDigest text before value rest splits at =
    let (first, found, front, stop) =
      digest_located text (length before) (length before + length value) at in
    let behind : drop (length before) text ≡ value ++ rest =
      ap (drop (length before)) splits ∙ drop-append_length before (value ++ rest) in
    let stop' : end_of ends_value (drop (length before) text) ≡ length value =
      omega (arith, stop) in
    let stops : end_of ends_value (value ++ rest) ≡ length value =
      ap (end_of ends_value) (sym behind) ∙ stop' in
    record {
      splits = splits;
      first = first;
      found = found;
      front = front;
      open_value =
          rw (stops, take-append_length value rest) at (take-end_of ends_value (value ++ rest));
      closed_value =
          rw (stops, drop-append_length value rest) at (drop-end_of ends_value (value ++ rest));
    }

Spliced-RedactsDigests :
    (text text' : List ℕ) → Spliced locate_digest redact text text' → RedactsDigests text text'
Spliced-RedactsDigests text text' (ends e) = no_digest (not_digest_located text e)
Spliced-RedactsDigests text text' (replaces before value rest rest' splits at more) =
    digest before value rest rest' (located-IsDigest text before value rest splits at)
      (Spliced-RedactsDigests rest rest' more)

-- The ways that `locate_password` ends.
password_located :
    (text : List ℕ) (s e : ℕ)
    → locate_password text ≡ some (s, e)
    → (tag : ℕ) × (tag_end : ℕ) × (close : ℕ) × (find any_case open_tag text ≡ some tag)
      × (find same_case (codes ">") (drop tag text) ≡ some tag_end)
      × (find any_case close_tag (drop (tag + tag_end + 1) text) ≡ some close)
      × (s ≡ tag + tag_end + 1)
      × (e ≡ s + close)
unfolding locate_password
password_located text s e h = elim (Option-cases (find any_case open_tag text)) [
  | inl gone ↦ cc (rw (locate_password, gone) at h)
  | inr (tag, at) ↦ elim (Option-cases (find same_case (codes ">") (drop tag text))) [
    | inl gone ↦ cc (rw (locate_password, at, gone) at h)
    | inr (tag_end, at') ↦
        elim (Option-cases (find any_case close_tag (drop (tag + tag_end + 1) text))) [
          | inl gone ↦ cc (rw (locate_password, at, at', gone) at h)
          | inr (close, at'') ↦
              let same = some-injective _ _ (rw (locate_password, at, at', at'') at h) in
              (
                tag,
                tag_end,
                close,
                at,
                at',
                at'',
                sym (ap (λ x. x.0) same),
                sym (ap (λ x. x.1) same) ∙ ap (λ k. k + close) (ap (λ x. x.0) same),
              )
        ]
  ]
]

not_password_located : (text : List ℕ) → locate_password text ≡ none → HasNoPassword text
unfolding locate_password
not_password_located text h tag tag_end close at at' at'' =
    cc (rw (locate_password, at, at', at'') at h)

locate_password-FindsRanges : FindsRanges locate_password
locate_password-FindsRanges text s e h =
    let (tag, tag_end, close, at, at', at'', s_is, e_is) = password_located text s e h in
    let inside = (find_inside any_case close_tag (drop (tag + tag_end + 1) text) close at'').0 in
    let left = length-drop (tag + tag_end + 1) text in
    record {
      ordered = omega (arith, e_is);
      inside = omega (arith, e_is, s_is, inside, left);
      advances = omega (arith, e_is, s_is);
    }

located-IsPassword :
    (text before value rest : List ℕ)
    → text ≡ before ++ (value ++ rest)
    → locate_password text ≡ some (length before, length before + length value)
    → IsPassword text before value rest
located-IsPassword text before value rest splits at =
    let (tag, tag_end, close, found, tag_ends, closes, front, stop) =
      password_located text (length before) (length before + length value) at in
    let close_is : close ≡ length value = omega (arith, stop) in
    let behind : drop (tag + tag_end + 1) text ≡ value ++ rest =
      ap (λ k. drop k text) (sym front)
      ∙ ap (drop (length before)) splits
      ∙ drop-append_length before (value ++ rest) in
    record {
      splits = splits;
      tag = tag;
      tag_end = tag_end;
      found = found;
      tag_ends = tag_ends;
      front = front;
      closes = ap (find any_case close_tag) (sym behind) ∙ closes ∙ ap some close_is;
    }

Spliced-RedactsPasswords :
    (text text' : List ℕ) → Spliced locate_password redact text text' → RedactsPasswords text text'
Spliced-RedactsPasswords text text' (ends e) = no_password (not_password_located text e)
Spliced-RedactsPasswords text text' (replaces before value rest rest' splits at more) =
    password before value rest rest' (located-IsPassword text before value rest splits at)
      (Spliced-RedactsPasswords rest rest' more)

-- `redact_http_text` ends, and hides two kinds of value from the front: behind each marker what reaches
-- to the end of a value, and then the content of each password element that is opened and closed. It
-- changes nothing else.
pub redact_http_text-Redacts :
    (text : List ℕ)
    → (middle : List ℕ) × RedactsDigests text middle
      × RedactsPasswords middle (redact_http_text text)
unfolding redact_http_text
redact_http_text-Redacts text =
    let once = splice_loop locate_digest redact (length text) text 0 in
    (
      once,
      Spliced-RedactsDigests text once
          (splice_loop_lem locate_digest redact text locate_digest-FindsRanges),
      Spliced-RedactsPasswords once _
          (splice_loop_lem locate_password redact once locate_password-FindsRanges),
    )
