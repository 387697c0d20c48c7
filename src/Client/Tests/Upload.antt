-- ===== src/Client/Tests/Upload.antt =====
-- What a client sends, up to the camera, at a concrete input.
use dahua_p2p_bridge.Common.{
  ℕ, ◌^◌, ◌<◌, ◌≡◌, refl, inl, inr, false, none, List, [], ◌∷◌, ◌++◌, In, All, map, ok, arith,
}
use dahua_p2p_bridge.Common.HashMap.{remove}
use dahua_p2p_bridge.Utf8.{is_utf8}
use dahua_p2p_bridge.Ptcp.Wire.{PtcpPacket, payload, bind, status, heartbeat, len}
use dahua_p2p_bridge.Ptcp.Wire.RoundTrip.{IsWireBody}
use dahua_p2p_bridge.Ptcp.Session.{from_millis, PtcpSession, from_state, send, track}
use dahua_p2p_bridge.Ptcp.Session.Send.{content, body_bytes, HasCounters}
use dahua_p2p_bridge.Ptcp.Receive.{Readings}
use dahua_p2p_bridge.Ptcp.Receive.Strict.{Arrival, strict_session}
use dahua_p2p_bridge.Ptcp.Transfer.{recv_datagrams, datagrams, SentBefore}
use dahua_p2p_bridge.Engine.{
  Shared, PtcpEvent, beat, connect, disconnect, bytes_from, event_body, disc_text, dh_writer_round,
}
use dahua_p2p_bridge.Client.Reader.{
  got, broken, process_reader, initial_reader, process_reader_events, failed, IsChunk,
}
use dahua_p2p_bridge.Client.Upload.{write_all, bodies_of, data_of, from_reader, upload_complete}

abbrev at_instant : Readings
at_instant = record { gap_timeout = from_millis 2000; gap_opened = 0; gap_tested = 0; drained = 0 }

abbrev shared : Shared
shared = record {
  session = from_state 0 0xffff_fff8 0 0 0 0;
  channels = (7, 1) ∷ [];
  conn_channels = [];
  onvif_realm = none;
  queues = [];
  connected = [];
}

abbrev chunks : List (List ℕ)
chunks = (1 ∷ 2 ∷ []) ∷ (3 ∷ []) ∷ []

chunks_nonempty : All IsChunk chunks
chunks_nonempty = (λ e. cc e, (λ e. cc e, tt))

-- The client's connection breaks behind its second chunk.
process_reader_events_example :
    process_reader 7 false initial_reader shared (map got chunks ++ (broken ∷ [])) ≡ (
      record shared { channels = [] },
      bytes_from 7 (1 ∷ 2 ∷ []) ∷ bytes_from 7 (3 ∷ []) ∷ disconnect 7 ∷ [],
    )
unfolding remove
process_reader_events_example =
    process_reader_events 7 false initial_reader shared chunks broken [] chunks_nonempty failed

-- The events of a heartbeat and of another client stand between those of the reader.
abbrev events : List (ℕ × PtcpEvent)
events =
    (1, bytes_from 7 (1 ∷ 2 ∷ []))
    ∷ (2, beat)
    ∷ (3, bytes_from 7 (3 ∷ []))
    ∷ (4, connect 9 80)
    ∷ (5, disconnect 7)
    ∷ []

abbrev first : PtcpPacket
first = record {
  sent = 0xffff_fff8;
  recv = 0;
  pid = 0xffff;
  lmid = 0;
  rmid = 0;
  body = payload (record { realm = 7; bytes = 1 ∷ 2 ∷ [] });
}

abbrev second : PtcpPacket
second = record { sent = 6; recv = 0; pid = 0xfffe; lmid = 1; rmid = 0; body = heartbeat }

abbrev third : PtcpPacket
third = record {
  sent = 18;
  recv = 0;
  pid = 0xfffd;
  lmid = 2;
  rmid = 0;
  body = payload (record { realm = 7; bytes = 3 ∷ [] });
}

abbrev fourth : PtcpPacket
fourth = record { sent = 31; recv = 0; pid = 0xfffc; lmid = 3; rmid = 0; body = bind 9 80 }

abbrev last : PtcpPacket
last = record { sent = 51; recv = 0; pid = 0xfffb; lmid = 4; rmid = 0; body = status 7 disc_text }

written : (write_all shared events).1 ≡ first ∷ second ∷ third ∷ fourth ∷ last ∷ []
unfolding write_all dh_writer_round event_body send from_state len track
written = refl

-- The end comes first, and the third packet comes twice.
abbrev arrivals : List Arrival
arrivals =
    (at_instant, last)
    ∷ (at_instant, third)
    ∷ (at_instant, second)
    ∷ (at_instant, third)
    ∷ (at_instant, fourth)
    ∷ (at_instant, first)
    ∷ []

arrivals_sent : SentBefore (write_all shared events).1 arrivals
arrivals_sent = rw written (
  inr (inr (inr (inr (inl refl)))),
  (
    inr (inr (inl refl)),
    (inr (inl refl), (inr (inr (inl refl)), (inr (inr (inr (inl refl))), (inl refl, tt)))),
  ),
)

all_arrive :
    (q : PtcpPacket) → In q (content (write_all shared events).1) → In q (map (λ a. a.1) arrivals)
unfolding len
all_arrive q i = cases (rw written at i)
  where
    cases :
        In q (content (first ∷ second ∷ third ∷ fourth ∷ last ∷ []))
        → In q (map (λ a. a.1) arrivals)
    cases (inl e) = inr (inr (inr (inr (inr (inl e)))))
    cases (inr (inl e)) = inr (inr (inl e))
    cases (inr (inr (inl e))) = inr (inl e)
    cases (inr (inr (inr (inl e)))) = inr (inr (inr (inr (inl e))))
    cases (inr (inr (inr (inr (inl e))))) = inl e
    cases (inr (inr (inr (inr (inr i))))) = absurd i

events_on_wire : All (λ b. IsWireBody b.1) (bodies_of events)
unfolding event_body is_utf8
events_on_wire = (
  (omega arith, omega arith),
  (tt, ((omega arith, omega arith), ((omega arith, omega arith), ((omega arith, refl), tt)))),
)

events_small : body_bytes (bodies_of events) < 2 ^ 31
unfolding event_body len
events_small = omega arith

shared-HasCounters : HasCounters shared.session
unfolding from_state
shared-HasCounters = omega arith

-- What the reader sends, among the events.
merged :
    from_reader 7 events
    ≡ (process_reader 7 false initial_reader shared (map got chunks ++ (broken ∷ []))).1
unfolding process_reader
merged = refl

upload_complete_example :
    (out : PtcpSession × List PtcpPacket) × (recv_datagrams
        (strict_session 0 0 0xffff_fff8 0 0 0)
        (datagrams arrivals)
      ≡ ok out)
    × (data_of 7 (map (λ p. p.body) out.1) ≡ chunks)
unfolding from_state
upload_complete_example =
    upload_complete shared shared 7 false initial_reader chunks broken events arrivals 0 0 0 0 0
      chunks_nonempty failed merged shared-HasCounters events_on_wire events_small arrivals_sent
      all_arrive
