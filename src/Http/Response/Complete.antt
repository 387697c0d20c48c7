-- ===== src/Http/Response/Complete.antt =====
-- A rewritten response is complete for its own header.
use dahua_p2p_bridge.Common.{
  ℕ, ◌+◌, ◌%◌, ◌<◌, ◌≡◌, ◌≢◌, refl, sym, ap, ◌∙◌, inl, inr, true, Bool-cases, some, List, [], ◌∷◌,
  ◌++◌, length, length-append, All, any, take, drop, leb, arith,
}
use dahua_p2p_bridge.Utf8.{from_utf8_lossy}
use dahua_p2p_bridge.Bytes.{find, any_case, to_ascii_lowercase, eq_bytes, starts_with, split_once}
use dahua_p2p_bridge.Bytes.Decimal.{to_decimal, parse_unsigned}
use dahua_p2p_bridge.Bytes.Trim.{trim}
use dahua_p2p_bridge.Bytes.Lines.{
  split_crlf, join_crlf, lines, lines-join_crlf, join_crlf-split_crlf, IsHeaderLine,
}
use dahua_p2p_bridge.Http.{HttpRewriteConfig}
use dahua_p2p_bridge.Http.Splice.{take-append_length}
use dahua_p2p_bridge.Http.Authority.{replace_url_authorities}
use dahua_p2p_bridge.Http.Message.{
  header_mark, header_end, usize_limit, find_length, content_length, message_complete,
  http_response_complete,
}
use dahua_p2p_bridge.Http.Message.Header.{header_end-join_crlf}
use dahua_p2p_bridge.Http.Response.{
  is_length_line, rewrite_lines, header_lines, rewrite_http_response,
  normalize_no_profile_delete_response, says_no_profile, delete_profile_response,
}
use dahua_p2p_bridge.Http.Response.Lines.{
  find_length-header_lines, header_lines-IsHeaderLine, lossy-join_crlf,
}

header_lines-ne-nil : (n : ℕ) (ls : List (List ℕ)) → header_lines n ls ≢ []
unfolding header_lines rewrite_lines
header_lines-ne-nil n [] e = cc e
header_lines-ne-nil n (line ∷ ls) e = elim (Bool-cases (any is_length_line (line ∷ ls))) [
  | inl found ↦ cc (rw (header_lines, found) at e)
  | inr gone ↦ cc (rw (header_lines, gone) at e)
]

content_length-join_crlf :
    (ls : List (List ℕ)) → All IsHeaderLine ls → content_length (join_crlf ls) ≡ find_length ls
unfolding content_length
content_length-join_crlf ls h = ap find_length (lines-join_crlf ls h)

header_end_lines :
    (ls : List (List ℕ)) (body : List ℕ)
    → ls ≢ []
    → All IsHeaderLine ls
    → header_end (join_crlf ls ++ (header_mark ++ body)) ≡ some (length (join_crlf ls))
header_end_lines [] body h k = absurd (h refl)
header_end_lines (line ∷ ls) body h k = header_end-join_crlf line ls body k

message_complete-header :
    (header body : List ℕ)
    → header_end (header ++ (header_mark ++ body)) ≡ some (length header)
    → content_length (from_utf8_lossy header) ≡ some (length body)
    → length (header ++ (header_mark ++ body)) < usize_limit
    → message_complete (header ++ (header_mark ++ body)) ≡ true
unfolding message_complete
message_complete-header header body at says small =
    let total : List ℕ = header ++ (header_mark ++ body) in
    let room : length total ≡ length header + 4 + length body =
      omega (arith, length-append header (header_mark ++ body)) in
    let fits : leb ((length header + 4 + length body) % usize_limit) (length total) ≡ true =
      ground (arith, room, small) in
    rw (message_complete, at, take-append_length header (header_mark ++ body), says) fits

-- The answer that stands in for an error is complete, so `normalize_no_profile_delete_response` keeps
-- completeness.
delete_profile_response_complete : http_response_complete delete_profile_response ≡ true
unfolding http_response_complete delete_profile_response find starts_with from_utf8_lossy lines
    split_once eq_bytes any_case to_ascii_lowercase trim parse_unsigned to_decimal
delete_profile_response_complete = refl

normalize_complete :
    (response : List ℕ)
    → http_response_complete response ≡ true
    → http_response_complete (normalize_no_profile_delete_response response) ≡ true
unfolding normalize_no_profile_delete_response
normalize_complete response h = elim (Bool-cases (says_no_profile response)) [
  | inl says ↦ rw says delete_profile_response_complete
  | inr silent ↦ rw silent h
]

-- If the header of a response is made of lines that end with CR LF, are ASCII, not empty and have no
-- other line feed, then the rewritten response is the rewritten header, an empty line and the rewritten
-- body, the header says the length of that body, whatever the camera's said, and the client finds the
-- response complete, also after `normalize_no_profile_delete_response`.
pub rewrite_http_response_complete :
    (message : List ℕ) (config : HttpRewriteConfig) (h : ℕ)
    → header_end message ≡ some h
    → All IsHeaderLine (split_crlf (take h message))
    → length (rewrite_http_response message config) < usize_limit
    → (header : List ℕ) × (let body = replace_url_authorities (drop (h + 4) message) config in
        (rewrite_http_response message config ≡ header ++ (header_mark ++ body))
        × (header_end (rewrite_http_response message config) ≡ some (length header))
        × (content_length header ≡ some (length body))
        × (http_response_complete (rewrite_http_response message config) ≡ true)
        × (http_response_complete
              (normalize_no_profile_delete_response (rewrite_http_response message config))
            ≡ true))
unfolding rewrite_http_response http_response_complete
rewrite_http_response_complete message config h at are_lines small =
    let raw : List ℕ = take h message in
    let body : List ℕ = replace_url_authorities (drop (h + 4) message) config in
    let n : ℕ = length body in
    let plain : from_utf8_lossy raw ≡ raw =
      ap from_utf8_lossy (sym (join_crlf-split_crlf raw))
      ∙ lossy-join_crlf (split_crlf raw) are_lines
      ∙ join_crlf-split_crlf raw in
    let ls : List (List ℕ) = header_lines n (split_crlf raw) in
    let ls_are : All IsHeaderLine ls = header_lines-IsHeaderLine n (split_crlf raw) are_lines in
    let header : List ℕ = join_crlf ls in
    let out_is : rewrite_http_response message config ≡ header ++ (header_mark ++ body) =
      rw (rewrite_http_response, at, plain) refl in
    let found : header_end (header ++ (header_mark ++ body)) ≡ some (length header) =
      header_end_lines ls body (header_lines-ne-nil n (split_crlf raw)) ls_are in
    let size : length (header ++ (header_mark ++ body)) < usize_limit = rw out_is at small in
    let says : content_length header ≡ some n =
      content_length-join_crlf ls ls_are
      ∙ find_length-header_lines n (split_crlf raw)
          (omega (arith, size, length-append header (header_mark ++ body))) in
    let complete : http_response_complete (rewrite_http_response message config) ≡ true =
      ap message_complete out_is
      ∙ message_complete-header header body found
          (ap content_length (lossy-join_crlf ls ls_are) ∙ says) size in
    (
      header,
      (
        out_is,
        ap header_end out_is ∙ found,
        says,
        complete,
        normalize_complete (rewrite_http_response message config) complete,
      ),
    )
