-- ===== src/Client/Reader.antt =====
-- `process_reader` of rust-engine/src/process.rs: what a client sends becomes events for `dh_writer`.
-- The receiver of the events is there as long as the engine runs.
use dahua_p2p_bridge.Common.{
  ℕ, ◌≡◌, ◌≢◌, refl, ap, Bool, true, false, not, ◌&&◌, ◌||◌, List, [], ◌∷◌, ◌++◌, map, any, ◌==◌,
  if◌then◌else◌, All,
}
use dahua_p2p_bridge.Common.HashMap.{remove}
use dahua_p2p_bridge.Utf8.{from_utf8_lossy}
use dahua_p2p_bridge.Bytes.{codes, same_case, starts_with, before_first}
use dahua_p2p_bridge.Http.Message.{http_request_complete}
use dahua_p2p_bridge.Engine.{Shared, PtcpEvent, bytes_from, disconnect}

abbrev rtsp_methods : List (List ℕ)
rtsp_methods =
    codes "OPTIONS "
    ∷ codes "DESCRIBE "
    ∷ codes "SETUP "
    ∷ codes "PLAY "
    ∷ codes "PAUSE "
    ∷ codes "TEARDOWN "
    ∷ codes "GET_PARAMETER "
    ∷ codes "ANNOUNCE "
    ∷ codes "RECORD "
    ∷ []

unfoldable pub is_rtsp_request : List ℕ → Bool
unfolding starts_with
is_rtsp_request bytes = any (λ prefix. starts_with same_case prefix bytes) rtsp_methods

-- A result of `read`: bytes, of which there are none at the end of the stream, or an error.
pub data ClientRead : Type 0 where
  got : List ℕ → ClientRead
  broken : ClientRead

-- The variables of the loop, and the request lines that were printed.
pub record ReaderState : Type 0 where
  pub http_request : List ℕ
  pub request_announced : Bool
  pub printed : List (List ℕ)

abbrev pub initial_reader : ReaderState
initial_reader = record { http_request = []; request_announced = false; printed = [] }

abbrev pub first_line : List ℕ → List ℕ
first_line bytes = before_first (λ b. b == b'\r' || b == b'\n') bytes

-- What the loop does with bytes before it sends them on.
unfoldable pub note_request : Bool → ReaderState → List ℕ → ReaderState
note_request persistent_realm st bytes =
    let request = st.http_request ++ bytes in
    if persistent_realm
    then record st { http_request = if http_request_complete request then [] else request }
    else if not st.request_announced && is_rtsp_request bytes
    then record st {
      request_announced = true;
      printed = st.printed ++ (from_utf8_lossy (first_line bytes) ∷ []);
    }
    else st

-- The end of the loop.
unfoldable pub reader_ends : ℕ → Bool → Shared → Shared × List PtcpEvent
reader_ends realm persistent_realm s =
    if persistent_realm
    then (s, [])
    else (record s { channels = remove realm s.channels }, disconnect realm ∷ [])

-- The state that the reads so far leave, and the events sent, in order.
unfoldable pub process_reader :
    ℕ → Bool → ReaderState → Shared → List ClientRead → Shared × List PtcpEvent
unfolding note_request reader_ends
process_reader realm persistent_realm st s [] = (s, [])
process_reader realm persistent_realm st s (broken ∷ reads) = reader_ends realm persistent_realm s
process_reader realm persistent_realm st s (got [] ∷ reads) = reader_ends realm persistent_realm s
process_reader realm persistent_realm st s (got (b ∷ bytes) ∷ reads) =
    let (s', events) =
      process_reader realm persistent_realm (note_request persistent_realm st (b ∷ bytes)) s
        reads in
    (s', bytes_from realm (b ∷ bytes) ∷ events)

-- What arrives before the end: none of it is empty.
abbrev pub IsChunk : List ℕ → Type 0
IsChunk chunk = chunk ≢ []

-- The end of the client's side: the end of the stream, or an error.
pub data IsEnd : ClientRead → Type 0 where
  closed : IsEnd (got [])
  failed : IsEnd broken

-- Every chunk of a client becomes one event, in order and unchanged. Then a client of RTSP is
-- disconnected and its channel is closed, a client of ONVIF keeps its realm for the response.
pub process_reader_events :
    (realm : ℕ) (persistent_realm : Bool) (st : ReaderState) (s : Shared) (chunks : List (List ℕ))
    (last : ClientRead) (rest : List ClientRead)
    → All IsChunk chunks
    → IsEnd last
    → process_reader realm persistent_realm st s (map got chunks ++ (last ∷ rest)) ≡ (
      (if persistent_realm then s else record s { channels = remove realm s.channels }),
      map (bytes_from realm) chunks ++ (if persistent_realm then [] else disconnect realm ∷ []),
    )
unfolding process_reader
process_reader_events realm true st s [] last rest h closed = refl
process_reader_events realm true st s [] last rest h failed = refl
process_reader_events realm false st s [] last rest h closed = refl
process_reader_events realm false st s [] last rest h failed = refl
process_reader_events realm p st s ([] ∷ chunks) last rest h e = absurd (h.0 refl)
process_reader_events realm p st s ((b ∷ bytes) ∷ chunks) last rest h e =
    let ih =
      process_reader_events realm p (note_request p st (b ∷ bytes)) s chunks last rest h.1 e in
    ap (λ out. (out.0, bytes_from realm (b ∷ bytes) ∷ out.1)) ih
