-- ===== src/Http/Tests.antt =====
-- The unit tests of rust-engine/src/process.rs on the model, and the theorems about HTTP at concrete
-- inputs.
use dahua_p2p_bridge.Common.{
  ℕ, ◌+◌, ◌<◌, ◌≡◌, refl, true, false, some, List, ◌++◌, length, take, drop, All, arith,
}
use dahua_p2p_bridge.Utf8.{from_utf8_lossy}
use dahua_p2p_bridge.Bytes.{
  codes, same_case, contains, find, starts_with, any_case, eq_bytes, to_ascii_lowercase, split_once,
  end_of, before_first, after_last, count,
}
use dahua_p2p_bridge.Bytes.Decimal.{to_decimal, parse_unsigned}
use dahua_p2p_bridge.Bytes.Trim.{trim}
use dahua_p2p_bridge.Bytes.Lines.{lines, split_crlf, join_crlf, IsHeaderLine}
use dahua_p2p_bridge.Http.{HttpRewriteConfig}
use dahua_p2p_bridge.Http.Splice.{splice_loop}
use dahua_p2p_bridge.Http.Authority.{
  http_scheme, rtsp_scheme, authority, is_delimiter, replace_url_authorities,
}
use dahua_p2p_bridge.Http.Authority.Rewrites.{Rewrites, replace_url_authorities-Rewrites}
use dahua_p2p_bridge.Http.Message.{
  header_mark, header_end, usize_limit, content_length, http_response_complete,
}
use dahua_p2p_bridge.Http.Response.{
  normalize_no_profile_delete_response, is_length_line, rewrite_http_response,
}
use dahua_p2p_bridge.Http.Response.Complete.{rewrite_http_response_complete}
use dahua_p2p_bridge.Http.Redact.{redact_http_text}
use dahua_p2p_bridge.Http.Redact.Redacts.{
  RedactsDigests, RedactsPasswords, redact_http_text-Redacts,
}

abbrev config : HttpRewriteConfig
config = record { host = codes "192.168.1.2"; onvif_port = 16540; rtsp_port = 15540 }

abbrev xml : List ℕ
xml =
    codes
      "<E xmlns=\"http://www.w3.org/2003\"><X>http://10.0.0.25/onvif</X><U>rtsp://10.0.0.25:554/cam</U></E>"

rewrites_camera_addresses :
    replace_url_authorities xml config
    ≡ codes
        "<E xmlns=\"http://www.w3.org/2003\"><X>http://192.168.1.2:16540/onvif</X><U>rtsp://192.168.1.2:15540/cam</U></E>"
unfolding replace_url_authorities splice_loop find starts_with any_case eq_bytes is_delimiter end_of
    before_first after_last count to_decimal
rewrites_camera_addresses = refl

incomplete_response :
    http_response_complete (codes "HTTP/1.1 200 OK\r\nContent-Length: 5\r\n\r\n1234") ≡ false
unfolding http_response_complete find starts_with from_utf8_lossy lines split_once eq_bytes any_case
    trim parse_unsigned
incomplete_response = refl

complete_response :
    http_response_complete (codes "HTTP/1.1 200 OK\r\nContent-Length: 5\r\n\r\n12345") ≡ true
unfolding http_response_complete find starts_with from_utf8_lossy lines split_once eq_bytes any_case
    trim parse_unsigned
complete_response = refl

abbrev no_profile : List ℕ
no_profile =
    codes "HTTP/1.1 500 E\r\n\r\n<ter:NoProfile>Profile token does not exist</ter:NoProfile>"

normalizes_missing_profile :
    starts_with same_case
      (codes "HTTP/1.1 200 OK")
      (normalize_no_profile_delete_response no_profile)
    ≡ true
unfolding normalize_no_profile_delete_response starts_with from_utf8_lossy contains find to_decimal
normalizes_missing_profile = refl

replace_url_authorities-Rewrites_example :
    (middle : List ℕ) × Rewrites http_scheme (authority config.host config.onvif_port) xml middle
    × Rewrites rtsp_scheme
        (authority config.host config.rtsp_port)
        middle
        (replace_url_authorities xml config)
replace_url_authorities-Rewrites_example = replace_url_authorities-Rewrites xml config

-- The header says 99, and the body has 9 bytes.
abbrev response : List ℕ
response = codes "HTTP/1.1 200 OK\r\ncontent-length: 99\r\nServer: x\r\n\r\n<a>1</a>\n"

response_header : header_end response ≡ some 46
unfolding find starts_with
response_header = refl

response_lines : All IsHeaderLine (split_crlf (take 46 response))
unfolding split_crlf
response_lines = (
  (λ e. cc e, omega arith, omega arith),
  ((λ e. cc e, omega arith, omega arith), ((λ e. cc e, omega arith, omega arith), tt)),
)

abbrev rewritten : List ℕ
rewritten = codes "HTTP/1.1 200 OK\r\nContent-Length: 9\r\nServer: x\r\n\r\n<a>1</a>\n"

rewrites_response : rewrite_http_response response config ≡ rewritten
unfolding rewrite_http_response is_length_line find starts_with from_utf8_lossy split_crlf join_crlf
    to_ascii_lowercase replace_url_authorities splice_loop any_case eq_bytes is_delimiter end_of
    before_first after_last count to_decimal
rewrites_response = refl

response_small : length (rewrite_http_response response config) < usize_limit
response_small = rw (rewrites_response) (omega arith)

rewrite_http_response_complete_example :
    (header : List ℕ) × (let body = replace_url_authorities (drop (46 + 4) response) config in
      (rewrite_http_response response config ≡ header ++ (header_mark ++ body))
      × (header_end (rewrite_http_response response config) ≡ some (length header))
      × (content_length header ≡ some (length body))
      × (http_response_complete (rewrite_http_response response config) ≡ true)
      × (http_response_complete
            (normalize_no_profile_delete_response (rewrite_http_response response config))
          ≡ true))
rewrite_http_response_complete_example =
    rewrite_http_response_complete response config 46 response_header response_lines response_small

abbrev secret : List ℕ
secret = codes "a PasswordDigest=xyz, b <wsse:Password T=1>pw</wsse:Password>"

redact_http_text-Redacts_example :
    (middle : List ℕ) × RedactsDigests secret middle
    × RedactsPasswords middle (redact_http_text secret)
redact_http_text-Redacts_example = redact_http_text-Redacts secret
