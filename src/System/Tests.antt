-- ===== src/System/Tests.antt =====
-- Runs of the engine with all of its tasks at a concrete input.
mod Heard
mod Written
use dahua_p2p_bridge.Common.{
  ℕ, zero, suc, ◌^◌, ◌<◌, ◌≡◌, refl, inl, inr, Bool, true, false, none, some, List, [], ◌∷◌, ◌++◌,
  In, All, length, map, ok, arith,
}
use dahua_p2p_bridge.Common.HashMap.{lookup, insert, remove, contains_key}
use dahua_p2p_bridge.Bytes.{codes, to_ascii_lowercase}
use dahua_p2p_bridge.Client.Startup.{Cli}
use dahua_p2p_bridge.Common.{Option}
use dahua_p2p_bridge.Bytes.Trim.{trim}
use dahua_p2p_bridge.Ptcp.Wire.{PtcpPacket, len}
use dahua_p2p_bridge.Ptcp.Session.{
  from_state, set_allow_gap_skip, send, track, acknowledge_sent, prune,
}
use dahua_p2p_bridge.Ptcp.Sequence.{sequence_after}
use dahua_p2p_bridge.Ptcp.Receive.{
  recv, note_header, drain_contiguous, drain_loop, recv_beyond_gap, store_beyond_gap, skips_gap,
}
use dahua_p2p_bridge.Engine.{
  reading, dh_reader_at, dh_writer_round, event_body, dispatch, push_channel, connect, bytes_from,
}
use dahua_p2p_bridge.Engine.Dispatch.{payloads_of}
use dahua_p2p_bridge.Engine.Tests.{
  at_start, base, ps, ps-IsStream, ps_small, engine, inbox-Arrives, all_arrive,
}
use dahua_p2p_bridge.Settings.{allow_gap_skip}
use dahua_p2p_bridge.Client.Reader.{process_reader, initial_reader, note_request, IsChunk}
use dahua_p2p_bridge.Client.Connection.{open_realm, bind_realm, rtsp, onvif_http}
use dahua_p2p_bridge.Client.Startup.{adopt_session, initial_shared}
use dahua_p2p_bridge.System.{
  Client, System, Step, reads, takes, opens, asks, binds, receives, initial, new_client, asking,
  serving, writing,
}
use dahua_p2p_bridge.System.Reach.{Reach, start, next}
use dahua_p2p_bridge.Ptcp.Wire.{payload, bind}
use dahua_p2p_bridge.Ptcp.Session.{PtcpSession}
use dahua_p2p_bridge.Ptcp.Session.Send.{content}
use dahua_p2p_bridge.Ptcp.Receive.Strict.{Arrival, strict_session}
use dahua_p2p_bridge.Ptcp.Transfer.{recv_datagrams, datagrams}
use dahua_p2p_bridge.Client.Upload.{data_of}
use dahua_p2p_bridge.System.Events.{IsAlone}
use dahua_p2p_bridge.System.Heard.{client_heard, client_heard_complete}
use dahua_p2p_bridge.System.Sent.{contents_of}
use dahua_p2p_bridge.Ptcp.Outgoing.{total_len}
use dahua_p2p_bridge.Ptcp.Wire.RoundTrip.{IsWireBody, IsWirePacket}
use dahua_p2p_bridge.Utf8.{is_utf8}
use dahua_p2p_bridge.Common.Words.{IsU32}
use dahua_p2p_bridge.System.Permits.{HoldsPermit, onvif_alone}
use dahua_p2p_bridge.System.Told.{Confirmed}
use dahua_p2p_bridge.System.Confirmed.{tasks-Confirmed}
use dahua_p2p_bridge.Client.Reader.{initial_reader}
use dahua_p2p_bridge.System.{serving, writing}
use dahua_p2p_bridge.Client.Connection.{bind_realm}
use dahua_p2p_bridge.System.Served.{client_served, client_served_complete}

abbrev pub args : Cli
args = record {
  udp_fd = 3;
  listener_fd = 4;
  http_listener_fd = 5;
  remote_port = 554;
  rtsp_public_port = none;
  session_sent = 0;
  session_recv = base;
  session_count = 0;
  session_id = 0;
  session_rmid = 0;
}

abbrev pub strictly : Option (List ℕ)
strictly = some (codes "off")

pub keeps_order : allow_gap_skip strictly ≡ false
unfolding allow_gap_skip trim to_ascii_lowercase
keeps_order = refl

abbrev pub start_up : System
start_up = initial 0 args strictly engine.inbox

abbrev pub Reached : Type 0
Reached = (y : System) × Reach start_up y

abbrev pub and_then : (r : Reached) → {y : System} → Step r.0 y → Reached
and_then (y, r) t = (_, next r t)

abbrev pub read_times : ℕ → Reached → Reached
read_times zero r = r
read_times (suc n) r = read_times n (and_then r (reads 0))

abbrev pub opened : Client
opened = new_client rtsp 7 554 0

-- The client opens its realm and asks for it, and `dh_writer` sends the request.
abbrev pub asked : Reached
unfolding lookup insert initial_shared
asked =
    let r1 =
      and_then (start_up, start) (opens rtsp 7 554 (omega arith) (omega arith) (omega arith)) in
    let r2 = and_then r1 (asks 0 opened refl refl (omega arith)) in
    and_then r2 (takes 1 (connect 7 554) [] refl)

-- All of the camera's packets arrive, and are handed on.
abbrev pub connected : Reached
connected = read_times 15 asked

all_read : connected.0.engine.inbox ≡ []
unfolding initial_shared adopt_session open_realm dh_reader_at dh_writer_round send recv from_state
    len track event_body dispatch push_channel note_header acknowledge_sent prune drain_contiguous
    drain_loop recv_beyond_gap store_beyond_gap skips_gap lookup insert remove contains_key
    sequence_after set_allow_gap_skip allow_gap_skip trim to_ascii_lowercase
all_read = refl

reader_waits : connected.0.engine.reader ≡ reading
unfolding initial_shared adopt_session open_realm dh_reader_at dh_writer_round send recv from_state
    len track event_body dispatch push_channel note_header acknowledge_sent prune drain_contiguous
    drain_loop recv_beyond_gap store_beyond_gap skips_gap lookup insert remove contains_key
    sequence_after set_allow_gap_skip allow_gap_skip trim to_ascii_lowercase
reader_waits = refl

entry_named : lookup 7 connected.0.engine.shared.channels ≡ some 0
unfolding initial_shared adopt_session open_realm dh_reader_at dh_writer_round send recv from_state
    len track event_body dispatch push_channel note_header acknowledge_sent prune drain_contiguous
    drain_loop recv_beyond_gap store_beyond_gap skips_gap lookup insert remove contains_key
    sequence_after set_allow_gap_skip allow_gap_skip trim to_ascii_lowercase
entry_named = refl

pub delivered :
    lookup 0 connected.0.engine.shared.queues
    ≡ some (record { queue = (1 ∷ 2 ∷ []) ∷ []; has_receiver = true })
unfolding initial_shared adopt_session open_realm dh_reader_at dh_writer_round send recv from_state
    len track event_body dispatch push_channel note_header acknowledge_sent prune drain_contiguous
    drain_loop recv_beyond_gap store_beyond_gap skips_gap lookup insert remove contains_key
    sequence_after set_allow_gap_skip allow_gap_skip trim to_ascii_lowercase
delivered = refl

pub is_client : lookup 0 connected.0.clients ≡ some (record opened { reader = asking })
unfolding initial_shared adopt_session open_realm dh_reader_at dh_writer_round send recv from_state
    len track event_body dispatch push_channel note_header acknowledge_sent prune drain_contiguous
    drain_loop recv_beyond_gap store_beyond_gap skips_gap lookup insert remove contains_key
    sequence_after set_allow_gap_skip allow_gap_skip trim to_ascii_lowercase
is_client = refl

abbrev pub bound : Reached
unfolding initial_shared adopt_session open_realm dh_reader_at dh_writer_round send recv from_state
    len track event_body dispatch push_channel note_header acknowledge_sent prune drain_contiguous
    drain_loop recv_beyond_gap store_beyond_gap skips_gap lookup insert remove contains_key
    sequence_after set_allow_gap_skip allow_gap_skip trim to_ascii_lowercase
bound =
    and_then connected
      (binds 0 (record opened { reader = asking }) none 554 refl refl refl (inl refl))

client_served_example :
    (before : List PtcpPacket) × (during : List PtcpPacket) × (rest : List PtcpPacket)
    × (has_receiver : Bool) × (ps ≡ before ++ (during ++ rest))
    × (length before ≡ 0)
    × (lookup 0 connected.0.engine.shared.queues
        ≡ some (record { queue = payloads_of 7 during; has_receiver = has_receiver }))
client_served_example =
    client_served 0 args strictly engine.inbox ps connected.0 0 (record opened { reader = asking })
      keeps_order (omega arith) ps-IsStream ps_small inbox-Arrives connected.1 is_client

client_served_complete_example : (1 ∷ 2 ∷ []) ∷ [] ≡ payloads_of 7 ps
client_served_complete_example =
    client_served_complete 0 args strictly engine.inbox ps connected.0 0
      (record opened { reader = asking }) keeps_order (omega arith) ps-IsStream ps_small
      inbox-Arrives connected.1 is_client ((1 ∷ 2 ∷ []) ∷ []) entry_named delivered all_arrive
      all_read reader_waits

-- An RTSP and an ONVIF client open their realms.
abbrev two_clients : Reached
two_clients =
    let r1 =
      and_then (start_up, start) (opens rtsp 7 554 (omega arith) (omega arith) (omega arith)) in
    and_then r1 (opens onvif_http 9 80 (omega arith) (omega arith) (omega arith))

onvif_holds : HoldsPermit two_clients.0.clients 1 (new_client onvif_http 9 80 0)
unfolding lookup insert
onvif_holds = record { is_client = refl; onvif = refl; goes_on = λ e. cc e }

onvif_alone_example :
    (◌≡◌ {A = ℕ} 1 1)
    × (new_client onvif_http 9 80 0 ≡ new_client onvif_http 9 80 0)
    × (two_clients.0.permits ≡ 0)
onvif_alone_example =
    onvif_alone 0 args strictly engine.inbox two_clients.0 1 1 (new_client onvif_http 9 80 0)
      (new_client onvif_http 9 80 0) two_clients.1 onvif_holds onvif_holds

bound_is_client :
    lookup 0 bound.0.clients
    ≡ some (record opened { reader = serving initial_reader; writer = writing 0 })
unfolding initial_shared adopt_session open_realm dh_reader_at dh_writer_round send recv from_state
    len track event_body dispatch push_channel note_header acknowledge_sent prune drain_contiguous
    drain_loop recv_beyond_gap store_beyond_gap skips_gap lookup insert remove contains_key
    sequence_after set_allow_gap_skip allow_gap_skip trim to_ascii_lowercase bind_realm
bound_is_client = refl

tasks-Confirmed_example : Confirmed bound.0.handed 7 0
tasks-Confirmed_example =
    tasks-Confirmed 0 args strictly engine.inbox bound.0 0
      (record opened { reader = serving initial_reader; writer = writing 0 }) bound.1
      bound_is_client (λ e. cc e)
