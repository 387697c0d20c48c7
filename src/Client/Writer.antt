-- ===== src/Client/Writer.antt =====
-- `process_writer` of rust-engine/src/process.rs: what comes over a realm's channel goes to its client,
-- for ONVIF as one rewritten response.
pub mod Relays
use dahua_p2p_bridge.Common.{
  ℕ, ◌≤◌, All, length, arith, ◌≡◌, ◌≢◌, ◌==◌, ==_refl, ne→==, refl, sym, ap, ◌∙◌, Bool, true, false,
  Option, none, some, List, [], ◌∷◌, ◌++◌, append-nil, append_assoc, if◌then◌else◌, not, ◌&&◌, ◌+◌,
  length-append,
}
use dahua_p2p_bridge.Common.HashMap.{remove, lookup, lookup-remove}
use dahua_p2p_bridge.Utf8.{from_utf8_lossy}
use dahua_p2p_bridge.Bytes.{codes, same_case, starts_with}
use dahua_p2p_bridge.Http.{HttpRewriteConfig}
use dahua_p2p_bridge.Http.Message.{http_response_complete}
use dahua_p2p_bridge.Http.Response.{normalize_no_profile_delete_response, rewrite_http_response}
use dahua_p2p_bridge.Engine.{Shared}
use dahua_p2p_bridge.Client.Reader.{first_line}

-- What the relay prints: a response line, the size of the first media data, and that a write failed.
pub data Notice : Type 0 where
  response_line : List ℕ → Notice
  media_data : ℕ → Notice
  socket_closed : Notice

-- How far the writer has come: what it wrote to the client and printed, whether it has ended, and the
-- channels.
pub record WriterRun : Type 0 where
  pub written : List (List ℕ)
  pub printed : List Notice
  pub has_ended : Bool
  pub shared : Shared

-- The loop that collects a response: none while it waits for more. `closed` says whether all senders
-- are gone, so that `recv` gives none behind the last chunk.
unfoldable pub collect_response : Bool → List ℕ → List (List ℕ) → Option (List ℕ)
collect_response closed response [] = if closed then some response else none
collect_response closed response (chunk ∷ chunks) =
    let more = collect_response closed (response ++ chunk) chunks in
    if http_response_complete (response ++ chunk) then some (response ++ chunk) else more

abbrev pub answer : HttpRewriteConfig → List ℕ → List (List ℕ)
answer config [] = []
answer config (b ∷ bytes) =
    normalize_no_profile_delete_response (rewrite_http_response (b ∷ bytes) config) ∷ []

abbrev pub responded : HttpRewriteConfig → ℕ → Shared → List ℕ → WriterRun
responded config realm s response = record {
  written = answer config response;
  printed = [];
  has_ended = true;
  shared = record s { channels = remove realm s.channels };
}

unfoldable pub write_response : HttpRewriteConfig → ℕ → Shared → Bool → List (List ℕ) → WriterRun
unfolding collect_response
write_response config realm s closed chunks = elim (collect_response closed [] chunks) [
  | none ↦ record { written = []; printed = []; has_ended = false; shared = s }
  | some response ↦ responded config realm s response
]

-- The variables of the loop that relays.
pub record Announced : Type 0 where
  pub media_announced : Bool
  pub response_announced : Bool

-- What the loop does with data before it writes it.
unfoldable pub note_response : Announced → List ℕ → Announced × List Notice
unfolding starts_with
note_response a bytes =
    if not a.response_announced && starts_with same_case (codes "RTSP/") bytes
    then (
      record a { response_announced = true },
      response_line (from_utf8_lossy (first_line bytes)) ∷ [],
    )
    else (a, [])

unfoldable pub note_media : Announced → List ℕ → Announced × List Notice
unfolding starts_with
note_media a bytes =
    if not a.media_announced && starts_with same_case (codes "$") bytes
    then (record a { media_announced = true }, media_data (length bytes) ∷ [])
    else (a, [])

unfoldable pub note_data : Announced → List ℕ → Announced × List Notice
unfolding note_response note_media
note_data a bytes =
    let (a', responses) = note_response a bytes in
    let (a'', media) = note_media a' bytes in (a'', responses ++ media)

-- The loop that relays: `results` are those of `write_all`, and the first failure ends it.
unfoldable pub relay : Announced → Shared → Bool → List (List ℕ) → List Bool → WriterRun
unfolding note_data
relay a s closed [] results = record { written = []; printed = []; has_ended = closed; shared = s }
relay a s closed (chunk ∷ chunks) [] = record {
  written = [];
  printed = (note_data a chunk).1;
  has_ended = false;
  shared = s;
}
relay a s closed (chunk ∷ chunks) (false ∷ results) = record {
  written = [];
  printed = (note_data a chunk).1 ++ (socket_closed ∷ []);
  has_ended = true;
  shared = s;
}
relay a s closed (chunk ∷ chunks) (true ∷ results) =
    let (a', notices) = note_data a chunk in
    let run = relay a' s closed chunks results in
    record {
      written = chunk ∷ run.written;
      printed = notices ++ run.printed;
      has_ended = run.has_ended;
      shared = run.shared;
    }

abbrev pub unannounced : Announced
unannounced = record { media_announced = false; response_announced = false }

-- Of the response the source ignores how the write ends.
unfoldable pub process_writer :
    Option HttpRewriteConfig → ℕ → Shared → Bool → List (List ℕ) → List Bool → WriterRun
unfolding write_response relay
process_writer (some config) realm s closed chunks results =
    write_response config realm s closed chunks
process_writer none realm s closed chunks results = relay unannounced s closed chunks results

abbrev pub concat : List (List ℕ) → List ℕ
concat [] = []
concat (chunk ∷ chunks) = chunk ++ concat chunks

-- No response is complete after any of the chunks.
abbrev pub StaysOpen : List ℕ → List (List ℕ) → Type 0
StaysOpen response [] = Unit {0}
StaysOpen response (chunk ∷ chunks) =
    (http_response_complete (response ++ chunk) ≡ false) × StaysOpen (response ++ chunk) chunks

collect_response-append :
    (closed : Bool) (response : List ℕ) (before after : List (List ℕ))
    → StaysOpen response before
    → collect_response closed response (before ++ after)
      ≡ collect_response closed (response ++ concat before) after
unfolding collect_response
collect_response-append closed response [] after h = rw (append-nil) refl
collect_response-append closed response (chunk ∷ before) after h =
    rw (h.0, ← append_assoc) (collect_response-append closed (response ++ chunk) before after h.1)

-- The loop takes what is there up to the first complete response, or waits.
collect_response-StaysOpen :
    (closed : Bool) (before : List (List ℕ))
    → StaysOpen [] before
    → collect_response closed [] before ≡ (if closed then some (concat before) else none)
collect_response-StaysOpen closed before h =
    ap (collect_response closed []) (sym (append-nil before))
    ∙ collect_response-append closed [] before [] h
    ∙ unfold collect_response in refl

-- The writer has ended over this response: it has written one message, which is the response rewritten,
-- or nothing if there was no byte; and of what the tasks share it has taken out its realm, and changed
-- nothing else.
pub record HasAnswered (config : HttpRewriteConfig) (realm : ℕ) (s : Shared) (response : List ℕ)
    (run : WriterRun) : Type 0 where
  pub once :
      response ≢ []
      → run.written
        ≡ normalize_no_profile_delete_response (rewrite_http_response response config) ∷ []
  pub silent : response ≡ [] → run.written ≡ []
  pub ends : run.has_ended ≡ true
  pub closes : lookup realm run.shared.channels ≡ none
  pub others : (r : ℕ) → r ≢ realm → lookup r run.shared.channels ≡ lookup r s.channels
  pub conn_channels : run.shared.conn_channels ≡ s.conn_channels
  pub queues : run.shared.queues ≡ s.queues
  pub session : run.shared.session ≡ s.session

responded-HasAnswered :
    (config : HttpRewriteConfig) (realm : ℕ) (s : Shared) (response : List ℕ)
    → HasAnswered config realm s response (responded config realm s response)
responded-HasAnswered config realm s response = record {
  once = one response;
  silent = λ e. rw e refl;
  ends = refl;
  closes = rw (lookup-remove, ==_refl realm) refl;
  others = λ r off. rw (lookup-remove, ne→== realm r (λ e. off (sym e))) refl;
  conn_channels = refl;
  queues = refl;
  session = refl;
}
  where
    one :
        (bytes : List ℕ)
        → bytes ≢ []
        → answer config bytes
          ≡ normalize_no_profile_delete_response (rewrite_http_response bytes config) ∷ []
    one [] full = absurd (full refl)
    one (b ∷ bytes) full = refl

-- The writer of an ONVIF client ends as soon as the bytes that have come over the channel are a complete
-- response, or the channel is closed: then it has written these bytes, rewritten, in one message, unless
-- there are none, and its realm, and no other, is out of `channels`. Until then it has written nothing
-- and changed nothing.
pub process_writer_response :
    (config : HttpRewriteConfig) (realm : ℕ) (s : Shared) (closed : Bool) (before : List (List ℕ))
    (chunk : List ℕ) (after : List (List ℕ)) (results : List Bool)
    → StaysOpen [] before
    → (http_response_complete (concat before ++ chunk) ≡ true
        → HasAnswered config realm s
            (concat before ++ chunk)
            (process_writer (some config) realm s closed (before ++ (chunk ∷ after)) results))
      × HasAnswered config realm s
          (concat before)
          (process_writer (some config) realm s true before results)
      × (process_writer (some config) realm s false before results
          ≡ record { written = []; printed = []; has_ended = false; shared = s })
unfolding process_writer
process_writer_response config realm s closed before chunk after results h = (
  λ full.
      rw
        (
          write_response,
          collect_response-append closed [] before (chunk ∷ after) h,
          collect_response,
          full,
        )
        (responded-HasAnswered config realm s (concat before ++ chunk)),
  rw (write_response, collect_response-StaysOpen true before h)
      (responded-HasAnswered config realm s (concat before)),
  rw (write_response, collect_response-StaysOpen false before h) refl,
)
