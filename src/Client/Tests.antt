-- ===== src/Client/Tests.antt =====
-- The tasks of one client at concrete inputs.
mod Upload
mod Startup
use dahua_p2p_bridge.Common.{
  ℕ, ◌≤◌, ◌<◌, ◌≡◌, ◌≢◌, refl, Bool, true, false, none, some, List, [], ◌∷◌, ◌++◌, All, length,
  take, arith,
}
use mathlib.Core.Option.{none-ne-some}
use dahua_p2p_bridge.Common.HashMap.{lookup}
use dahua_p2p_bridge.Utf8.{from_utf8_lossy}
use dahua_p2p_bridge.Bytes.{
  codes, eq_bytes, any_case, find, starts_with, split_once, to_ascii_lowercase, end_of,
  before_first, after_last, count,
}
use dahua_p2p_bridge.Bytes.Decimal.{to_decimal, parse_unsigned}
use dahua_p2p_bridge.Bytes.Trim.{trim}
use dahua_p2p_bridge.Bytes.Lines.{lines, split_crlf, join_crlf, IsHeaderLine}
use dahua_p2p_bridge.Ptcp.Wire.{status}
use dahua_p2p_bridge.Ptcp.Session.{from_state}
use dahua_p2p_bridge.Http.{HttpRewriteConfig}
use dahua_p2p_bridge.Http.Splice.{splice_loop}
use dahua_p2p_bridge.Http.Authority.{is_delimiter, replace_url_authorities}
use dahua_p2p_bridge.Http.Message.{header_end, usize_limit, http_response_complete}
use dahua_p2p_bridge.Http.Response.{is_length_line, rewrite_http_response}
use dahua_p2p_bridge.Engine.{Shared, connect, conn_text, dispatch}
use dahua_p2p_bridge.Engine.Dispatch.{IsOpen}
use dahua_p2p_bridge.Client.Writer.Relays.{process_writer_relay}
use dahua_p2p_bridge.Client.Writer.{
  concat, StaysOpen, process_writer, HasAnswered, process_writer_response,
}
use dahua_p2p_bridge.Client.Answered.{onvif_client_answered}
use dahua_p2p_bridge.Client.Connection.{
  onvif_http, request_realm, bind_realm, waits, gives_up, serves, exits, value, no_answer,
}

abbrev config : HttpRewriteConfig
config = record { host = codes "192.168.1.2"; onvif_port = 16540; rtsp_port = 15540 }

abbrev shared : Shared
shared = record {
  session = from_state 0 0 0 0 0 0;
  channels = [];
  conn_channels = [];
  onvif_realm = none;
  queues = [];
  connected = [];
}

abbrev before : List (List ℕ)
before = codes "HTTP/1.1 200 OK\r\nContent-Length: 1\r\n" ∷ codes "\r\n" ∷ []

before-StaysOpen : StaysOpen [] before
unfolding http_response_complete find starts_with from_utf8_lossy lines split_once trim
    parse_unsigned eq_bytes any_case
before-StaysOpen = (refl, (refl, tt))

process_writer_response_example :
    (http_response_complete (concat before ++ codes "x") ≡ true
      → HasAnswered config 7 shared
          (concat before ++ codes "x")
          (process_writer (some config) 7 shared false (before ++ (codes "x" ∷ [])) []))
    × HasAnswered config 7 shared
        (concat before)
        (process_writer (some config) 7 shared true before [])
    × (process_writer (some config) 7 shared false before []
        ≡ record { written = []; printed = []; has_ended = false; shared = shared })
process_writer_response_example =
    process_writer_response config 7 shared false before (codes "x") [] [] before-StaysOpen

process_writer_relay_example :
    let run = process_writer none 7 shared false before (true ∷ false ∷ []) in
    (run.shared ≡ shared)
    × ((rest : List (List ℕ)) × (before ≡ run.written ++ rest))
    × (All (λ r. r ≡ true) (true ∷ false ∷ []) → length before ≤ 2 → run.written ≡ before)
    × (length run.printed ≤ 3)
process_writer_relay_example = process_writer_relay 7 shared false before (true ∷ false ∷ [])

-- The camera's response comes in three pieces, and its body gets longer as the address is replaced.
abbrev pieces : List (List ℕ)
pieces = codes "HTTP/1.1 200 OK\r\nContent-Length: 17\r\n" ∷ codes "\r\nhttp://10.0.0" ∷ []

pieces-StaysOpen : StaysOpen [] pieces
unfolding http_response_complete find starts_with from_utf8_lossy lines split_once trim
    parse_unsigned eq_bytes any_case
pieces-StaysOpen = (refl, (refl, tt))

abbrev whole : List ℕ
whole = concat pieces ++ codes ".25/"

whole_complete : http_response_complete whole ≡ true
unfolding http_response_complete find starts_with from_utf8_lossy lines split_once trim
    parse_unsigned eq_bytes any_case
whole_complete = refl

whole_header : header_end whole ≡ some 35
unfolding find starts_with
whole_header = refl

whole_lines : All IsHeaderLine (split_crlf (take 35 whole))
unfolding split_crlf
whole_lines = ((λ e. cc e, omega arith, omega arith), ((λ e. cc e, omega arith, omega arith), tt))

whole_rewritten :
    rewrite_http_response whole config
    ≡ codes "HTTP/1.1 200 OK\r\nContent-Length: 25\r\n\r\nhttp://192.168.1.2:16540/"
unfolding rewrite_http_response is_length_line find starts_with from_utf8_lossy split_crlf join_crlf
    to_ascii_lowercase replace_url_authorities splice_loop any_case eq_bytes is_delimiter end_of
    before_first after_last count to_decimal
whole_rewritten = refl

whole_small : length (rewrite_http_response whole config) < usize_limit
whole_small = rw (whole_rewritten) (omega arith)

onvif_client_answered_example :
    let run = process_writer (some config) 7 shared false (pieces ++ (codes ".25/" ∷ [])) [] in
    (response : List ℕ) × (run.written ≡ response ∷ [])
    × (http_response_complete response ≡ true)
    × (run.has_ended ≡ true)
    × (lookup 7 run.shared.channels ≡ none)
onvif_client_answered_example =
    onvif_client_answered config 7 shared false pieces (codes ".25/") [] [] 35 pieces-StaysOpen
      whole_complete whole_header whole_lines whole_small
