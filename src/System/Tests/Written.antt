-- ===== src/System/Tests/Written.antt =====
-- What an RTSP client is written at a concrete input.
use dahua_p2p_bridge.Common.{◌++◌, ℕ, ◌≡◌, refl, true, some, List, [], ◌∷◌, arith}
use dahua_p2p_bridge.Common.HashMap.{lookup, insert, remove, contains_key}
use dahua_p2p_bridge.Bytes.{to_ascii_lowercase}
use dahua_p2p_bridge.Bytes.Trim.{trim}
use dahua_p2p_bridge.Ptcp.Wire.{len}
use dahua_p2p_bridge.Ptcp.Session.{
  from_state, set_allow_gap_skip, send, track, acknowledge_sent, prune,
}
use dahua_p2p_bridge.Ptcp.Sequence.{sequence_after}
use dahua_p2p_bridge.Ptcp.Receive.{
  recv, note_header, drain_contiguous, drain_loop, recv_beyond_gap, store_beyond_gap, skips_gap,
}
use dahua_p2p_bridge.Engine.{
  Channel, reading, dh_reader_at, dh_writer_round, event_body, dispatch, push_channel,
}
use dahua_p2p_bridge.Engine.Dispatch.{payloads_of}
use dahua_p2p_bridge.Engine.Tests.{ps, ps-IsStream, ps_small, engine, inbox-Arrives, all_arrive}
use dahua_p2p_bridge.Settings.{allow_gap_skip}
use dahua_p2p_bridge.Client.Reader.{initial_reader}
use dahua_p2p_bridge.Client.Connection.{open_realm, bind_realm}
use dahua_p2p_bridge.Client.Startup.{adopt_session, initial_shared}
use dahua_p2p_bridge.System.Tests.{args, strictly, keeps_order}
use dahua_p2p_bridge.System.{relays, Client, System, serving, writing}
use dahua_p2p_bridge.Client.Writer.{process_writer, relay, note_data, note_response, note_media}
use dahua_p2p_bridge.System.Written.{client_written, client_written_complete}
use dahua_p2p_bridge.System.Settles.{engine_settles, read_on, OwnReach}
use dahua_p2p_bridge.Client.Upload.{write_all}
use dahua_p2p_bridge.System.Tests.{start_up, Reached, and_then, opened, bound}

abbrev channel : Channel
channel = record { queue = (1 ∷ 2 ∷ []) ∷ []; has_receiver = true }

abbrev waiting : Client
waiting = record opened { reader = serving initial_reader; writer = writing 0 }

-- The client is written what was sent over its channel.
abbrev relayed : Reached
unfolding initial_shared adopt_session open_realm dh_reader_at dh_writer_round send recv from_state
    len track event_body dispatch push_channel note_header acknowledge_sent prune drain_contiguous
    drain_loop recv_beyond_gap store_beyond_gap skips_gap lookup insert remove contains_key
    sequence_after set_allow_gap_skip allow_gap_skip trim to_ascii_lowercase bind_realm
    process_writer relay note_data note_response note_media
relayed = and_then bound (relays 0 0 waiting channel true refl refl refl (omega arith) refl)

abbrev reader : Client
reader = record waiting { writer = writing 1; written = (1 ∷ 2 ∷ []) ∷ [] }

reader_is_client : lookup 0 relayed.0.clients ≡ some reader
unfolding initial_shared adopt_session open_realm dh_reader_at dh_writer_round send recv from_state
    len track event_body dispatch push_channel note_header acknowledge_sent prune drain_contiguous
    drain_loop recv_beyond_gap store_beyond_gap skips_gap lookup insert remove contains_key
    sequence_after set_allow_gap_skip allow_gap_skip trim to_ascii_lowercase bind_realm
    process_writer relay note_data note_response note_media
reader_is_client = refl

still_named : lookup 7 relayed.0.engine.shared.channels ≡ some 0
unfolding initial_shared adopt_session open_realm dh_reader_at dh_writer_round send recv from_state
    len track event_body dispatch push_channel note_header acknowledge_sent prune drain_contiguous
    drain_loop recv_beyond_gap store_beyond_gap skips_gap lookup insert remove contains_key
    sequence_after set_allow_gap_skip allow_gap_skip trim to_ascii_lowercase bind_realm
    process_writer relay note_data note_response note_media
still_named = refl

still_open : lookup 0 relayed.0.engine.shared.queues ≡ some channel
unfolding initial_shared adopt_session open_realm dh_reader_at dh_writer_round send recv from_state
    len track event_body dispatch push_channel note_header acknowledge_sent prune drain_contiguous
    drain_loop recv_beyond_gap store_beyond_gap skips_gap lookup insert remove contains_key
    sequence_after set_allow_gap_skip allow_gap_skip trim to_ascii_lowercase bind_realm
    process_writer relay note_data note_response note_media
still_open = refl

nothing_left : relayed.0.engine.inbox ≡ []
unfolding initial_shared adopt_session open_realm dh_reader_at dh_writer_round send recv from_state
    len track event_body dispatch push_channel note_header acknowledge_sent prune drain_contiguous
    drain_loop recv_beyond_gap store_beyond_gap skips_gap lookup insert remove contains_key
    sequence_after set_allow_gap_skip allow_gap_skip trim to_ascii_lowercase bind_realm
    process_writer relay note_data note_response note_media
nothing_left = refl

still_waits : relayed.0.engine.reader ≡ reading
unfolding initial_shared adopt_session open_realm dh_reader_at dh_writer_round send recv from_state
    len track event_body dispatch push_channel note_header acknowledge_sent prune drain_contiguous
    drain_loop recv_beyond_gap store_beyond_gap skips_gap lookup insert remove contains_key
    sequence_after set_allow_gap_skip allow_gap_skip trim to_ascii_lowercase bind_realm
    process_writer relay note_data note_response note_media
still_waits = refl

client_written_example : (left : List (List ℕ)) × (payloads_of 7 ps ≡ (1 ∷ 2 ∷ []) ∷ left)
client_written_example =
    client_written 0 args strictly engine.inbox ps relayed.0 0 reader keeps_order (omega arith)
      ps-IsStream ps_small inbox-Arrives relayed.1 reader_is_client refl

client_written_complete_example : (1 ∷ 2 ∷ []) ∷ [] ≡ payloads_of 7 ps
client_written_complete_example =
    client_written_complete 0 args strictly engine.inbox ps relayed.0 0 reader keeps_order
      (omega arith) ps-IsStream ps_small inbox-Arrives relayed.1 reader_is_client refl
      ((1 ∷ 2 ∷ []) ∷ []) 1 still_named still_open refl (omega arith) all_arrive nothing_left
      still_waits

engine_settles_example :
    let (s, packets) = write_all start_up.engine.shared [] in
    let run = read_on 5 s engine.inbox reading in
    (y' : System) × OwnReach start_up y'
    × (y'.engine ≡ record { shared = run.shared; reader = reading; inbox = [] })
    × (y'.events ≡ [])
    × (y'.taken ≡ [])
    × (y'.handed ≡ run.handed)
    × (y'.sent ≡ packets ++ run.sent)
    × (y'.clients ≡ [])
engine_settles_example = engine_settles 5 start_up
