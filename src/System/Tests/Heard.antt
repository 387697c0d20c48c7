-- ===== src/System/Tests/Heard.antt =====
-- What the camera gets from a client at a concrete input.
use dahua_p2p_bridge.Common.{
  ℕ, ◌^◌, ◌<◌, ◌≡◌, refl, inl, inr, false, none, some, List, [], ◌∷◌, ◌++◌, In, All, map, ok, arith,
}
use dahua_p2p_bridge.Common.HashMap.{lookup, insert, remove, contains_key}
use dahua_p2p_bridge.Bytes.{to_ascii_lowercase}
use dahua_p2p_bridge.Bytes.Trim.{trim}
use dahua_p2p_bridge.Ptcp.Wire.{PtcpPacket, len}
use dahua_p2p_bridge.Ptcp.Session.{
  from_state, set_allow_gap_skip, send, track, acknowledge_sent, prune,
}
use dahua_p2p_bridge.Ptcp.Sequence.{sequence_after}
use dahua_p2p_bridge.Ptcp.Receive.{
  recv, note_header, drain_contiguous, drain_loop, recv_beyond_gap, store_beyond_gap, skips_gap,
}
use dahua_p2p_bridge.Engine.{
  dh_reader_at, dh_writer_round, event_body, dispatch, push_channel, bytes_from,
}
use dahua_p2p_bridge.Engine.Tests.{at_start, base, engine}
use dahua_p2p_bridge.Settings.{allow_gap_skip}
use dahua_p2p_bridge.Client.Reader.{process_reader, initial_reader, note_request, IsChunk}
use dahua_p2p_bridge.Client.Connection.{open_realm, bind_realm}
use dahua_p2p_bridge.Client.Startup.{adopt_session, initial_shared}
use dahua_p2p_bridge.System.Tests.{args, strictly}
use dahua_p2p_bridge.System.{Client, takes, receives, serving, writing}
use dahua_p2p_bridge.Ptcp.Wire.{payload, bind}
use dahua_p2p_bridge.Ptcp.Session.{PtcpSession}
use dahua_p2p_bridge.Ptcp.Session.Send.{content}
use dahua_p2p_bridge.Ptcp.Receive.Strict.{Arrival, strict_session}
use dahua_p2p_bridge.Ptcp.Transfer.{recv_datagrams, datagrams}
use dahua_p2p_bridge.Client.Upload.{data_of}
use dahua_p2p_bridge.System.Events.{IsAlone}
use dahua_p2p_bridge.System.Heard.{client_heard, client_heard_complete}
use dahua_p2p_bridge.System.Sent.{contents_of}
use dahua_p2p_bridge.Ptcp.Outgoing.{total_len}
use dahua_p2p_bridge.Ptcp.Wire.RoundTrip.{IsWireBody, IsWirePacket}
use dahua_p2p_bridge.Utf8.{is_utf8}
use dahua_p2p_bridge.Common.Words.{IsU32}
use dahua_p2p_bridge.System.Tests.{Reached, and_then, opened, bound}

speaks : IsChunk (5 ∷ 6 ∷ [])
speaks e = cc e

-- The client sends a chunk, which goes to the camera.
abbrev spoken : Reached
unfolding initial_shared adopt_session open_realm dh_reader_at dh_writer_round send recv from_state
    len track event_body dispatch push_channel note_header acknowledge_sent prune drain_contiguous
    drain_loop recv_beyond_gap store_beyond_gap skips_gap lookup insert remove contains_key
    sequence_after set_allow_gap_skip allow_gap_skip trim to_ascii_lowercase process_reader
    bind_realm
spoken =
    let c = record opened { reader = serving initial_reader; writer = writing 0; rewrite = none } in
    let r1 =
      and_then bound
        (receives 0 c initial_reader (5 ∷ 6 ∷ []) refl refl speaks (omega arith) (omega arith)) in
    and_then r1 (takes 9 (bytes_from 7 (5 ∷ 6 ∷ [])) [] refl)

abbrev request : PtcpPacket
request = record { sent = 0; recv = base; pid = 0xffff; lmid = 0; rmid = 0; body = bind 7 554 }

abbrev spoken_packet : PtcpPacket
spoken_packet = record {
  sent = 20;
  recv = 35;
  pid = 0xfffe;
  lmid = 5;
  rmid = 2;
  body = payload (record { realm = 7; bytes = 5 ∷ 6 ∷ [] });
}

-- The chunk overtakes the request and comes twice.
abbrev arrivals : List Arrival
arrivals = (at_start, spoken_packet) ∷ (at_start, request) ∷ (at_start, spoken_packet) ∷ []

abbrev speaker : Client
speaker = record opened {
  reader = serving (note_request false initial_reader (5 ∷ 6 ∷ []));
  writer = writing 0;
  chunks = (5 ∷ 6 ∷ []) ∷ [];
}

arrivals_sent : All (λ a. In a.1 spoken.0.sent) arrivals
unfolding initial_shared adopt_session open_realm dh_reader_at dh_writer_round send recv from_state
    len track event_body dispatch push_channel note_header acknowledge_sent prune drain_contiguous
    drain_loop recv_beyond_gap store_beyond_gap skips_gap lookup insert remove contains_key
    sequence_after set_allow_gap_skip allow_gap_skip trim to_ascii_lowercase process_reader
    bind_realm
arrivals_sent = (
  inr (inr (inr (inr (inr (inl refl))))),
  (inl refl, (inr (inr (inr (inr (inr (inl refl))))), tt)),
)

speaks-IsAlone : IsAlone spoken.0.clients 0 7
unfolding initial_shared adopt_session open_realm dh_reader_at dh_writer_round send recv from_state
    len track event_body dispatch push_channel note_header acknowledge_sent prune drain_contiguous
    drain_loop recv_beyond_gap store_beyond_gap skips_gap lookup insert remove contains_key
    sequence_after set_allow_gap_skip allow_gap_skip trim to_ascii_lowercase process_reader
    bind_realm
speaks-IsAlone h c e is = ground (arith, e)

contents_sent : content spoken.0.sent ≡ request ∷ spoken_packet ∷ []
unfolding initial_shared adopt_session open_realm dh_reader_at dh_writer_round send recv from_state
    len track event_body dispatch push_channel note_header acknowledge_sent prune drain_contiguous
    drain_loop recv_beyond_gap store_beyond_gap skips_gap lookup insert remove contains_key
    sequence_after set_allow_gap_skip allow_gap_skip trim to_ascii_lowercase process_reader
    bind_realm
contents_sent = refl

all_heard : (q : PtcpPacket) → In q (request ∷ spoken_packet ∷ []) → In q (map (λ a. a.1) arrivals)
all_heard q (inl e) = inr (inl e)
all_heard q (inr (inl e)) = inl e
all_heard q (inr (inr i)) = absurd i

speaker_is_client : lookup 0 spoken.0.clients ≡ some speaker
unfolding initial_shared adopt_session open_realm dh_reader_at dh_writer_round send recv from_state
    len track event_body dispatch push_channel note_header acknowledge_sent prune drain_contiguous
    drain_loop recv_beyond_gap store_beyond_gap skips_gap lookup insert remove contains_key
    sequence_after set_allow_gap_skip allow_gap_skip trim to_ascii_lowercase process_reader
    bind_realm
speaker_is_client = refl

none_waits : spoken.0.events ≡ []
unfolding initial_shared adopt_session open_realm dh_reader_at dh_writer_round send recv from_state
    len track event_body dispatch push_channel note_header acknowledge_sent prune drain_contiguous
    drain_loop recv_beyond_gap store_beyond_gap skips_gap lookup insert remove contains_key
    sequence_after set_allow_gap_skip allow_gap_skip trim to_ascii_lowercase process_reader
    bind_realm
none_waits = refl

few_bytes : total_len (contents_of spoken.0.taken) < 2 ^ 31
unfolding initial_shared adopt_session open_realm dh_reader_at dh_writer_round send recv from_state
    len track event_body dispatch push_channel note_header acknowledge_sent prune drain_contiguous
    drain_loop recv_beyond_gap store_beyond_gap skips_gap lookup insert remove contains_key
    sequence_after set_allow_gap_skip allow_gap_skip trim to_ascii_lowercase process_reader
    bind_realm
few_bytes = omega arith

numbers_fit :
    (p : PtcpPacket)
    → IsU32 p.sent × IsU32 p.recv × IsU32 p.pid × IsU32 p.lmid × IsU32 p.rmid
    → IsWireBody p.body
    → IsWirePacket p
numbers_fit p (sent, recv, pid, lmid, rmid) body = record {
  sent_fits = sent;
  recv_fits = recv;
  pid_fits = pid;
  lmid_fits = lmid;
  rmid_fits = rmid;
  body_fits = body;
}

inbox_fits : All (λ a. IsWirePacket a.1) engine.inbox
unfolding is_utf8
inbox_fits = (
  numbers_fit _ (omega arith) (omega arith, omega arith),
  (
    numbers_fit _ (omega arith) (omega arith, omega arith),
    (
      numbers_fit _ (omega arith) (omega arith, refl),
      (numbers_fit _ (omega arith) (omega arith, omega arith), tt),
    ),
  ),
)

client_heard_example :
    (out : PtcpSession × List PtcpPacket) × (left : List (List ℕ)) × (recv_datagrams
        (strict_session 3 0 0 0 0 0)
        (datagrams arrivals)
      ≡ ok out)
    × ((5 ∷ 6 ∷ []) ∷ [] ≡ data_of 7 (map (λ p. p.body) out.1) ++ left)
client_heard_example =
    client_heard 0 args strictly engine.inbox spoken.0 (omega arith) (omega arith) (omega arith)
      (omega arith) (omega arith) inbox_fits spoken.1 0 speaker arrivals 3 0 0 0 0 speaker_is_client
      speaks-IsAlone few_bytes arrivals_sent

client_heard_complete_example :
    (out : PtcpSession × List PtcpPacket) × (recv_datagrams
        (strict_session 3 0 0 0 0 0)
        (datagrams arrivals)
      ≡ ok out)
    × (data_of 7 (map (λ p. p.body) out.1) ≡ (5 ∷ 6 ∷ []) ∷ [])
client_heard_complete_example =
    client_heard_complete 0 args strictly engine.inbox spoken.0 (omega arith) (omega arith)
      (omega arith) (omega arith) (omega arith) inbox_fits spoken.1 0 speaker arrivals 3 0 0 0 0
      speaker_is_client speaks-IsAlone few_bytes arrivals_sent none_waits
      (λ q i. all_heard q (rw contents_sent at i))
