-- ===== src/Http/Authority/Rewrites.antt =====
-- What `replace_url_authorities` does to a text.
use dahua_p2p_bridge.Common.{
  ℕ, ◌+◌, ◌≤◌, ◌<◌, ◌≡◌, sym, ap, ◌∙◌, ◌⊎◌, inl, inr, true, false, ◌==◌, Bool-cases, none, some,
  Option-cases, List, ◌++◌, length, drop, ltb, arith, All,
}
use mathlib.Core.Option.{some-injective}
use mathlib.Core.Path.{subst}
use dahua_p2p_bridge.Bytes.{any_case, find, end_of, after_last}
use dahua_p2p_bridge.Bytes.Pieces.{EndsWith, before_first-split, after_last-split}
use dahua_p2p_bridge.Bytes.Search.{StartsWith, find_inside, end_of-le, take-end_of, drop-end_of}
use dahua_p2p_bridge.Http.{HttpRewriteConfig}
use dahua_p2p_bridge.Http.Splice.{
  Spliced, ends, replaces, FindsRanges, splice_loop_lem, length-drop, take-append_length,
  drop-append_length,
}
use dahua_p2p_bridge.Http.Authority.{
  is_delimiter, is_local, host_of, new_authority, locate_authority, replace_authorities,
  http_scheme, rtsp_scheme, authority, replace_url_authorities,
}

-- No URL with the prefix is left that has anything behind the prefix.
abbrev pub HasNoUrl : List ℕ → List ℕ → Type 0
HasNoUrl prefix text = (find any_case prefix text ≡ none) ⊎ (length text ≤ length prefix)

-- `before` ends with the first occurrence of the prefix in the text, `original` reaches from there to
-- the first delimiter, or to the end.
pub record IsUrl (prefix text before original rest : List ℕ) : Type 0 where
  pub splits : text ≡ before ++ (original ++ rest)
  pub first : ℕ
  pub found : find any_case prefix text ≡ some first
  pub front : length before ≡ first + length prefix
  pub undelimited : All (λ b. is_delimiter b ≡ false) original
  pub delimited : StartsWith is_delimiter rest

-- What stands behind the last @ of an authority and before a colon.
pub record IsHost (original host : List ℕ) : Type 0 where
  pub user : List ℕ
  pub port : List ℕ
  pub splits : original ≡ user ++ (host ++ port)
  pub user_ends : EndsWith (λ b. b == b'@') user
  pub no_at : All (λ b. (b == b'@') ≡ false) (host ++ port)
  pub no_colon : All (λ b. (b == b':') ≡ false) host
  pub port_starts : StartsWith (λ b. b == b':') port

-- What an authority becomes: a local host is replaced, with its user and port, another host is kept.
pub data Becomes (authority original : List ℕ) : List ℕ → Type 0 where
  replaced :
      (host : List ℕ)
      → IsHost original host
      → is_local host ≡ true
      → Becomes authority original authority
  kept :
      (host : List ℕ)
      → IsHost original host
      → is_local host ≡ false
      → Becomes authority original original

host_of-IsHost : (original : List ℕ) → IsHost original (host_of original)
host_of-IsHost original =
    let (user, behind, no_at, user_ends) = after_last-split (λ b. b == b'@') original in
    let rear : List ℕ = after_last (λ b. b == b'@') original in
    let (port, splits, no_colon, port_starts) = before_first-split (λ b. b == b':') rear in
    record {
      user = user;
      port = port;
      splits = behind ∙ ap (λ r. user ++ r) splits;
      user_ends = user_ends;
      no_at = subst (All (λ b. (b == b'@') ≡ false)) splits no_at;
      no_colon = no_colon;
      port_starts = port_starts;
    }

new_authority-Becomes :
    (authority original : List ℕ) → Becomes authority original (new_authority authority original)
unfolding new_authority
new_authority-Becomes authority original = elim (Bool-cases (is_local (host_of original))) [
  | inl local ↦ rw local (replaced (host_of original) (host_of-IsHost original) local)
  | inr foreign ↦ rw foreign (kept (host_of original) (host_of-IsHost original) foreign)
]

-- `text'` is `text` with the authority of each URL that starts with the prefix replaced or kept,
-- the URLs being read from the front, and nothing else changed.
pub data Rewrites (prefix authority : List ℕ) : List ℕ → List ℕ → Type 0 where
  no_url : {text : List ℕ} → HasNoUrl prefix text → Rewrites prefix authority text text
  url :
      {text : List ℕ} (before original new rest rest' : List ℕ)
      → IsUrl prefix text before original rest
      → Becomes authority original new
      → Rewrites prefix authority rest rest'
      → Rewrites prefix authority text (before ++ (new ++ rest'))

module _ (prefix : List ℕ) where
  -- The ways that `locate_authority` ends.
  located :
      (text : List ℕ) (s e : ℕ)
      → locate_authority prefix text ≡ some (s, e)
      → (first : ℕ) × (find any_case prefix text ≡ some first)
        × (s ≡ first + length prefix)
        × (e ≡ s + end_of is_delimiter (drop s text))
  unfolding locate_authority
  located text s e h = elim (Bool-cases (ltb (length prefix) (length text))) [
    | inr short ↦ cc (rw (locate_authority, short) at h)
    | inl long ↦ elim (Option-cases (find any_case prefix text)) [
      | inl gone ↦ cc (rw (locate_authority, long, gone) at h)
      | inr (first, at) ↦
          let same = some-injective _ _ (rw (locate_authority, long, at) at h) in
          (
            first,
            at,
            sym (ap (λ x. x.0) same),
            sym (ap (λ x. x.1) same)
                ∙ ap (λ k. k + end_of is_delimiter (drop k text)) (ap (λ x. x.0) same),
          )
    ]
  ]

  not_located : (text : List ℕ) → locate_authority prefix text ≡ none → HasNoUrl prefix text
  unfolding locate_authority
  not_located text h = elim (Bool-cases (ltb (length prefix) (length text))) [
    | inr short ↦ inr (ground (arith, short))
    | inl long ↦ elim (Option-cases (find any_case prefix text)) [
      | inl gone ↦ inl gone
      | inr (first, at) ↦ cc (rw (locate_authority, long, at) at h)
    ]
  ]

  locate_authority-FindsRanges : 0 < length prefix → FindsRanges (locate_authority prefix)
  locate_authority-FindsRanges pos text s e h =
      let (first, at, s_is, e_is) = located text s e h in
      let inside = (find_inside any_case prefix text first at).0 in
      let stop = end_of-le is_delimiter (drop s text) in
      let left = length-drop s text in
      record {
        ordered = omega (arith, e_is);
        inside = omega (arith, e_is, s_is, inside, stop, left);
        advances = omega (arith, e_is, s_is, pos);
      }

  located-IsUrl :
      (text before value rest : List ℕ)
      → text ≡ before ++ (value ++ rest)
      → locate_authority prefix text ≡ some (length before, length before + length value)
      → IsUrl prefix text before value rest
  located-IsUrl text before value rest splits at =
      let (first, found, front, stop) =
        located text (length before) (length before + length value) at in
      let behind : drop (length before) text ≡ value ++ rest =
        ap (drop (length before)) splits ∙ drop-append_length before (value ++ rest) in
      let stop' : end_of is_delimiter (drop (length before) text) ≡ length value =
        omega (arith, stop) in
      let stops : end_of is_delimiter (value ++ rest) ≡ length value =
        ap (end_of is_delimiter) (sym behind) ∙ stop' in
      record {
        splits = splits;
        first = first;
        found = found;
        front = front;
        undelimited =
            rw (stops, take-append_length value rest) at (take-end_of is_delimiter (value ++ rest));
        delimited =
            rw (stops, drop-append_length value rest) at (drop-end_of is_delimiter (value ++ rest));
      }

  Spliced-Rewrites :
      (authority text text' : List ℕ)
      → Spliced (locate_authority prefix) (new_authority authority) text text'
      → Rewrites prefix authority text text'
  Spliced-Rewrites authority text text' (ends e) = no_url (not_located text e)
  Spliced-Rewrites authority text text' (replaces before value rest rest' splits at more) =
      url before value (new_authority authority value) rest rest'
        (located-IsUrl text before value rest splits at) (new_authority-Becomes authority value)
        (Spliced-Rewrites authority rest rest' more)

  replace_authorities-Rewrites :
      (authority text : List ℕ)
      → 0 < length prefix
      → Rewrites prefix authority text (replace_authorities prefix authority text)
  unfolding replace_authorities
  replace_authorities-Rewrites authority text pos = Spliced-Rewrites authority text _ (
      splice_loop_lem (locate_authority prefix) (new_authority authority) text
        (locate_authority-FindsRanges pos))

-- `replace_url_authorities` ends and rewrites the authorities of the http URLs, then those of the rtsp
-- URLs: of each, from the front, what stands between the prefix and the first delimiter, if its host is
-- an IPv4 literal or localhost. It changes nothing else, so other hosts, such as those of XML
-- namespaces, stay.
pub replace_url_authorities-Rewrites :
    (text : List ℕ) (config : HttpRewriteConfig)
    → (middle : List ℕ) × Rewrites http_scheme (authority config.host config.onvif_port) text middle
      × Rewrites rtsp_scheme
          (authority config.host config.rtsp_port)
          middle
          (replace_url_authorities text config)
unfolding replace_url_authorities
replace_url_authorities-Rewrites text config = (
  replace_authorities http_scheme (authority config.host config.onvif_port) text,
  replace_authorities-Rewrites http_scheme _ text (omega arith),
  replace_authorities-Rewrites rtsp_scheme _ _ (omega arith),
)
