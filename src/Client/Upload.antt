-- ===== src/Client/Upload.antt =====
-- From a client to the camera: `process_reader`, `dh_writer`, the network, and a session at the other
-- end that receives with strict ordering.
use dahua_p2p_bridge.Common.{
  ℕ, ◌<◌, ◌^◌, ◌≡◌, refl, ap, ◌∙◌, inl, inr, Bool, true, false, Bool-cases, List, [], ◌∷◌, ◌++◌,
  map, In, All, ltb, ◌==◌, ==_refl, if◌then◌else◌, ok, arith,
}
use dahua_p2p_bridge.Ptcp.Wire.{
  PtcpBody, PtcpPacket, payload, sync, command, bind, status, heartbeat, empty, len,
}
use dahua_p2p_bridge.Ptcp.Wire.RoundTrip.{IsWireBody}
use dahua_p2p_bridge.Ptcp.Session.{PtcpSession, send}
use dahua_p2p_bridge.Ptcp.Session.Send.{send_all, content, body_bytes, HasCounters}
use dahua_p2p_bridge.Ptcp.Receive.Strict.{Arrival, strict_session}
use dahua_p2p_bridge.Ptcp.Transfer.{
  recv_datagrams, datagrams, content_bodies, SentBefore, transfer_complete,
}
use dahua_p2p_bridge.Engine.{
  Shared, PtcpEvent, beat, connect, disconnect, bytes_from, event_body, dh_writer_round,
}
use dahua_p2p_bridge.Engine.Dispatch.{body_data}
use dahua_p2p_bridge.Client.Reader.{
  ReaderState, ClientRead, got, process_reader, process_reader_events, IsChunk, IsEnd,
}

-- `dh_writer` on one event after the other, each at its instant, and all packets that it sends.
unfoldable pub write_all : Shared → List (ℕ × PtcpEvent) → Shared × List PtcpPacket
write_all s [] = (s, [])
write_all s ((now, event) ∷ events) =
    let (s', p) = dh_writer_round now s event in
    let (s'', packets) = write_all s' events in (s'', p ∷ packets)

abbrev pub bodies_of : List (ℕ × PtcpEvent) → List (ℕ × PtcpBody)
bodies_of = map λ e. (e.0, event_body e.1)

write_all-send_all :
    (events : List (ℕ × PtcpEvent)) (s : Shared)
    → (write_all s events).1 ≡ (send_all s.session (bodies_of events)).1
unfolding write_all send_all dh_writer_round
write_all-send_all [] s = refl
write_all-send_all ((now, event) ∷ events) s =
    let (session, p) = send now s.session (event_body event) in
    ap (◌∷◌ p) (write_all-send_all events (record s { session = session }))

-- The data for one realm, in order.
abbrev pub data_of : ℕ → List PtcpBody → List (List ℕ)
data_of realm [] = []
data_of realm (body ∷ bodies) = body_data realm body ++ data_of realm bodies

-- The events that the reader of a realm can send.
abbrev pub is_from_reader : ℕ → PtcpEvent → Bool
is_from_reader realm beat = false
is_from_reader realm (connect r port) = false
is_from_reader realm (disconnect r) = r == realm
is_from_reader realm (bytes_from r bytes) = r == realm

abbrev pub from_reader : ℕ → List (ℕ × PtcpEvent) → List PtcpEvent
from_reader realm [] = []
from_reader realm ((now, event) ∷ events) =
    let rest = from_reader realm events in if is_from_reader realm event then event ∷ rest else rest

bare_no_data : (realm : ℕ) (body : PtcpBody) → ltb 0 (len body) ≡ false → body_data realm body ≡ []
unfolding len
bare_no_data realm (payload p) h = ground (arith, h)
bare_no_data realm sync h = refl
bare_no_data realm (command bytes) h = refl
bare_no_data realm (bind r port) h = refl
bare_no_data realm (status r text) h = refl
bare_no_data realm heartbeat h = refl
bare_no_data realm empty h = refl

-- The bodies without bytes carry no data.
pub data_of-content_bodies :
    (realm : ℕ) (bodies : List (ℕ × PtcpBody))
    → data_of realm (content_bodies bodies) ≡ data_of realm (map (λ b. b.1) bodies)
data_of-content_bodies realm [] = refl
data_of-content_bodies realm ((now, body) ∷ bodies) = elim (Bool-cases (ltb 0 (len body))) [
  | inl full ↦ rw full (ap (◌++◌ (body_data realm body)) (data_of-content_bodies realm bodies))
  | inr bare ↦ rw (bare, bare_no_data realm body bare) (data_of-content_bodies realm bodies)
]

abbrev pub event_data : ℕ → List PtcpEvent → List (List ℕ)
event_data realm [] = []
event_data realm (event ∷ events) = body_data realm (event_body event) ++ event_data realm events

-- Only the realm's reader sends data for the realm.
event_data-from_reader :
    (realm : ℕ) (events : List (ℕ × PtcpEvent))
    → data_of realm (map (λ b. b.1) (bodies_of events))
      ≡ event_data realm (from_reader realm events)
unfolding event_body
event_data-from_reader realm [] = refl
event_data-from_reader realm ((now, beat) ∷ events) = event_data-from_reader realm events
event_data-from_reader realm ((now, connect r port) ∷ events) = event_data-from_reader realm events
event_data-from_reader realm ((now, disconnect r) ∷ events) = elim (Bool-cases (r == realm)) [
  | inl same ↦ rw same (event_data-from_reader realm events)
  | inr other ↦ rw other (event_data-from_reader realm events)
]
event_data-from_reader realm ((now, bytes_from r bytes) ∷ events) = elim (Bool-cases (r == realm)) [
  | inl same ↦ rw (same, same) (ap (◌∷◌ bytes) (event_data-from_reader realm events))
  | inr other ↦ rw other (event_data-from_reader realm events)
]

event_data-chunks :
    (realm : ℕ) (persistent_realm : Bool) (chunks : List (List ℕ))
    → event_data realm
        (map (bytes_from realm) chunks ++ (if persistent_realm then [] else disconnect realm ∷ []))
      ≡ chunks
unfolding event_body
event_data-chunks realm true [] = refl
event_data-chunks realm false [] = refl
event_data-chunks realm p (chunk ∷ chunks) =
    rw (==_refl realm) (ap (◌∷◌ chunk) (event_data-chunks realm p chunks))

module _ (s reading : Shared) (realm : ℕ) (persistent_realm : Bool) (st : ReaderState)
    (chunks : List (List ℕ)) (last : ClientRead) (events : List (ℕ × PtcpEvent))
    (arrivals : List Arrival) (now sent count id rmid : ℕ) where
  abbrev camera : PtcpSession
  camera = strict_session now sent s.session.sent count id rmid

  -- What a client sends reaches the camera. The client sends its chunks, none of them empty, and ends;
  -- the events of its reader reach `dh_writer` in order among any events of other tasks; and each
  -- datagram with content arrives at the camera, in any order and as often as it may. Then the camera's
  -- session has delivered for the client's realm exactly the chunks, in order. The bodies fit the wire
  -- and are less than 2 ^ 31 bytes together.
  pub upload_complete :
      All IsChunk chunks
      → IsEnd last
      → from_reader realm events
        ≡ (process_reader realm persistent_realm st reading (map got chunks ++ (last ∷ []))).1
      → HasCounters s.session
      → All (λ b. IsWireBody b.1) (bodies_of events)
      → body_bytes (bodies_of events) < 2 ^ 31
      → SentBefore (write_all s events).1 arrivals
      → ((q : PtcpPacket) → In q (content (write_all s events).1) → In q (map (λ x. x.1) arrivals))
      → (out : PtcpSession × List PtcpPacket) × (recv_datagrams camera (datagrams arrivals)
          ≡ ok out)
        × (data_of realm (map (λ p. p.body) out.1) ≡ chunks)
  upload_complete nonempty end merged counters wire small before every =
      let packets = write_all-send_all events s in
      let (out, runs, delivered) =
        transfer_complete s.session (bodies_of events) arrivals now sent count id rmid counters wire
          small (rw packets at before) (λ q i. every q (rw packets i)) in
      (
        out,
        runs,
        ap (data_of realm) delivered
            ∙ data_of-content_bodies realm (bodies_of events)
            ∙ event_data-from_reader realm events
            ∙ ap (event_data realm) (
                merged
                ∙ ap (λ x. x.1)
                    (process_reader_events realm persistent_realm st reading chunks last [] nonempty
                      end))
            ∙ event_data-chunks realm persistent_realm chunks,
      )
