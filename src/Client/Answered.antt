-- ===== src/Client/Answered.antt =====
-- What an ONVIF client gets: the loop of `process_writer` with the rewriting of
-- rust-engine/src/process.rs.
use dahua_p2p_bridge.Common.{
  ℕ, ◌<◌, ◌≡◌, ◌≢◌, Bool, true, none, some, List, [], ◌∷◌, ◌++◌, All, length, take,
}
use mathlib.Core.Option.{none-ne-some}
use dahua_p2p_bridge.Common.HashMap.{lookup}
use dahua_p2p_bridge.Bytes.{find}
use dahua_p2p_bridge.Bytes.Lines.{split_crlf, IsHeaderLine}
use dahua_p2p_bridge.Http.{HttpRewriteConfig}
use dahua_p2p_bridge.Http.Message.{header_end, usize_limit, http_response_complete}
use dahua_p2p_bridge.Http.Response.{normalize_no_profile_delete_response, rewrite_http_response}
use dahua_p2p_bridge.Http.Response.Complete.{rewrite_http_response_complete}
use dahua_p2p_bridge.Engine.{Shared}
use dahua_p2p_bridge.Client.Writer.{concat, StaysOpen, process_writer, process_writer_response}

header-ne : (response : List ℕ) (h : ℕ) → header_end response ≡ some h → response ≢ []
unfolding find
header-ne response h at e = absurd (none-ne-some h (rw e at at))

-- An ONVIF client gets one whole response. As soon as the bytes over the channel are a complete
-- response, with a header of ASCII lines that end with CR LF, the client is written one message, which
-- is complete for its own header though its body may have another length than the camera's, and the
-- writer ends and its realm is closed.
pub onvif_client_answered :
    (config : HttpRewriteConfig) (realm : ℕ) (s : Shared) (closed : Bool) (before : List (List ℕ))
    (chunk : List ℕ) (after : List (List ℕ)) (results : List Bool) (h : ℕ)
    → StaysOpen [] before
    → http_response_complete (concat before ++ chunk) ≡ true
    → header_end (concat before ++ chunk) ≡ some h
    → All IsHeaderLine (split_crlf (take h (concat before ++ chunk)))
    → length (rewrite_http_response (concat before ++ chunk) config) < usize_limit
    → let run = process_writer (some config) realm s closed (before ++ (chunk ∷ after)) results in
      (response : List ℕ) × (run.written ≡ response ∷ [])
      × (http_response_complete response ≡ true)
      × (run.has_ended ≡ true)
      × (lookup realm run.shared.channels ≡ none)
onvif_client_answered config realm s closed before chunk after results h open_to full at are_lines
      small =
    let message = concat before ++ chunk in
    let run =
      (process_writer_response config realm s closed before chunk after results open_to).0 full in
    let (header, facts) = rewrite_http_response_complete message config h at are_lines small in
    (
      normalize_no_profile_delete_response (rewrite_http_response message config),
      run.once (header-ne message h at),
      facts.4,
      run.ends,
      run.closes,
    )
