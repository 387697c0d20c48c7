-- ===== src/Http/Authority.antt =====
-- `replace_url_authorities` of rust-engine/src/process.rs: the camera's own addresses in the URLs of a
-- text become those of the bridge.
pub mod Rewrites
use dahua_p2p_bridge.Common.{
  ℕ, zero, suc, ◌+◌, ◌-◌, ◌≤◌, ◌<◌, ◌≡◌, refl, sym, ap, ◌∙◌, ◌⊎◌, inl, inr, Bool, true, false, ◌&&◌,
  ◌||◌, Bool-cases, Option, none, some, Option-cases, List, [], ◌∷◌, ◌++◌, length, take, drop, ltb,
  leb, ◌==◌, if◌then◌else◌, arith, All,
}
use dahua_p2p_bridge.Bytes.{
  codes, is_ascii_digit, any_case, eq_bytes, find, end_of, before_first, after_last, all, count,
}
use dahua_p2p_bridge.Bytes.Decimal.{to_decimal}
use dahua_p2p_bridge.Http.{HttpRewriteConfig}
use dahua_p2p_bridge.Http.Splice.{
  Locate, splice_loop, Spliced, IsRange, FindsRanges, splice_loop_lem, length-drop,
}

unfoldable pub is_delimiter : ℕ → Bool
is_delimiter b =
    b == b'/'
    || b == b' '
    || b == b'\r'
    || b == b'\n'
    || b == b'"'
    || b == 39
    || b == b'<'
    || b == b'>'

-- `original_host`: what stands behind the last @ and before a colon.
abbrev pub host_of : List ℕ → List ℕ
host_of authority = before_first (λ b. b == b':') (after_last (λ b. b == b'@') authority)

-- `ipv4_literal || localhost`
unfoldable pub is_local : List ℕ → Bool
is_local host =
    all (λ b. is_ascii_digit b || b == b'.') host && count (λ b. b == b'.') host == 3
    || eq_bytes any_case host (codes "localhost")

-- The authority of the first URL with the prefix, as the range `start..end`.
unfoldable pub locate_authority : List ℕ → Locate
locate_authority prefix text =
    if ltb (length prefix) (length text)
    then elim (find any_case prefix text) [
      | none ↦ none
      | some relative ↦
          let start = relative + length prefix in
          some (start, start + end_of is_delimiter (drop start text))
    ]
    else none

-- What comes in its place; another host is put back as it was.
unfoldable pub new_authority : List ℕ → List ℕ → List ℕ
unfolding is_local
new_authority authority original = if is_local (host_of original) then authority else original

-- The loop for one of the two prefixes. Each round moves the index on, so a round for each byte is
-- enough.
unfoldable pub replace_authorities : List ℕ → List ℕ → List ℕ → List ℕ
unfolding locate_authority new_authority
replace_authorities prefix authority text =
    splice_loop (locate_authority prefix) (new_authority authority) (length text) text 0

abbrev pub http_scheme : List ℕ
http_scheme = codes "http://"

abbrev pub rtsp_scheme : List ℕ
rtsp_scheme = codes "rtsp://"

-- `format!("{}:{}", host, port)`
abbrev pub authority : List ℕ → ℕ → List ℕ
authority host port = host ++ (codes ":" ++ to_decimal port)

unfoldable pub replace_url_authorities : List ℕ → HttpRewriteConfig → List ℕ
unfolding replace_authorities
replace_url_authorities text config =
    let output = replace_authorities http_scheme (authority config.host config.onvif_port) text in
    replace_authorities rtsp_scheme (authority config.host config.rtsp_port) output
