-- ===== src/Http/Response.antt =====
-- `rewrite_http_response` and `normalize_no_profile_delete_response` of rust-engine/src/process.rs.
pub mod Lines
pub mod Complete
use dahua_p2p_bridge.Common.{
  ℕ, ◌+◌, ◌≡◌, refl, Bool, true, false, not, ◌&&◌, ◌||◌, Option, none, some, List, [], ◌∷◌, ◌++◌,
  length, take, drop, map, any, if◌then◌else◌,
}
use dahua_p2p_bridge.Utf8.{from_utf8_lossy}
use dahua_p2p_bridge.Bytes.{codes, to_ascii_lowercase, same_case, starts_with, find, contains}
use dahua_p2p_bridge.Bytes.Decimal.{to_decimal}
use dahua_p2p_bridge.Bytes.Lines.{crlf, split_crlf, join_crlf}
use dahua_p2p_bridge.Http.{HttpRewriteConfig}
use dahua_p2p_bridge.Http.Authority.{replace_url_authorities}
use dahua_p2p_bridge.Http.Message.{header_mark, header_end}

abbrev pub delete_profile_body : List ℕ
delete_profile_body =
    codes
      "<?xml version=\"1.0\" encoding=\"utf-8\" standalone=\"yes\" ?><s:Envelope xmlns:s=\"http://www.w3.org/2003/05/soap-envelope\"><s:Body><DeleteProfileResponse xmlns=\"http://www.onvif.org/ver10/media/wsdl\"/></s:Body></s:Envelope>"

abbrev pub delete_profile_header : List ℕ
delete_profile_header =
    codes
      "HTTP/1.1 200 OK\r\nContent-Type: application/soap+xml; charset=utf-8\r\nConnection: close\r\nContent-Length: "

-- The answer that stands in for the camera's error.
unfoldable pub delete_profile_response : List ℕ
delete_profile_response =
    delete_profile_header
    ++ (to_decimal (length delete_profile_body) ++ (header_mark ++ delete_profile_body))

unfoldable pub says_no_profile : List ℕ → Bool
says_no_profile response =
    let text = from_utf8_lossy response in
    contains (codes "Profile token does not exist") text && contains (codes "ter:NoProfile") text

unfoldable pub normalize_no_profile_delete_response : List ℕ → List ℕ
unfolding says_no_profile delete_profile_response
normalize_no_profile_delete_response response =
    if says_no_profile response then delete_profile_response else response

unfoldable pub is_length_line : List ℕ → Bool
is_length_line line = starts_with same_case (codes "content-length:") (map to_ascii_lowercase line)

-- `format!("Content-Length: {}", body.len())`
abbrev pub length_line : ℕ → List ℕ
length_line n = codes "Content-Length: " ++ to_decimal n

-- The loop over the header's lines, and the line that is added where none was found.
unfoldable pub rewrite_lines : ℕ → List (List ℕ) → List (List ℕ)
rewrite_lines n lines = map (λ line. if is_length_line line then length_line n else line) lines

unfoldable pub header_lines : ℕ → List (List ℕ) → List (List ℕ)
unfolding rewrite_lines
header_lines n lines =
    if any is_length_line lines then rewrite_lines n lines else lines ++ (length_line n ∷ [])

unfoldable pub rewrite_http_response : List ℕ → HttpRewriteConfig → List ℕ
unfolding header_lines
rewrite_http_response message config = elim (header_end message) [
  | none ↦ normalize_no_profile_delete_response (replace_url_authorities message config)
  | some h ↦
      let body = replace_url_authorities (drop (h + 4) message) config in
      let lines = split_crlf (from_utf8_lossy (take h message)) in
      join_crlf (header_lines (length body) lines) ++ (header_mark ++ body)
]
