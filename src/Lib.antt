-- ===== src/Lib.antt =====
-- Dahua P2P bridge: a model of the Rust engine (rust-engine/src), which carries RTSP and ONVIF/HTTP
-- connections of local clients over one authenticated PTCP session to a remote camera.
--
-- Parts, and the files that model them:
--   Ptcp/Wire         `PTCPPayload`, `PTCPBody`, `PTCPPacket` of rust-engine/src/ptcp.rs: `parse`,
--                     `serialize`, `len`. Bytes are numbers below 256, a failed assertion, index or
--                     slice is a panic. Wire/RoundTrip holds what is proved of them.
--   Ptcp/Sequence     `sequence_after`, order on wrapping u32 counters.
--   Ptcp/Session      `PTCPSession`: `new`, `from_state`, `set_allow_gap_skip`, `send` and
--                     `acknowledge_sent`; Session/Send and Session/Window are about runs of `send`
--                     and about acknowledgements.
--   Ptcp/Receive      `recv` and `drain_contiguous`. Receive/Cases names the ways through `recv`,
--                     Receive/Drain and Receive/OnStream are about the loop, Receive/Progress,
--                     Receive/Kept and Receive/Strict about strict ordering, Receive/Skip,
--                     Receive/Order and Receive/Video about gaps that are given up.
--   Ptcp/Retransmit   `due_retransmissions` and `has_retransmission_stall`.
--   Ptcp/Invariant    the invariant of a session, and every operation in any order.
--   Ptcp/Stream       the byte stream without wrap-around, the specification of the counters.
--   Ptcp/Socket       `ptcp_request` and `ptcp_read` over the results that the socket gives;
--                     Socket/Exchange is about one at each end.
--   Ptcp/Print        the Debug formatters and `try_print_data`; Print/Readable is about the log.
--   Ptcp/Transfer     two sessions with the wire format and a datagram network between them.
--   Ptcp/Outgoing     what a session sends while it also receives and retransmits; Outgoing/Window is
--                     about the packets that it tracks.
--   Engine            the tasks around the session: `dh_reader` and `dh_writer`
--                     (rust-engine/src/process.rs) and the retransmission task
--                     (rust-engine/src/main.rs) over the state behind the locks. Engine/Dispatch and
--                     Engine/Reader are about one task, Engine/Run about turns in any order,
--                     Run/Flow about how the camera's packets come through, Engine/Carried about what
--                     the channel of one client carries, and Engine/Told about whom a CONN tells.
--   Bytes             what the Rust standard library does with bytes: search, case, splitting,
--                     decimal numbers, white space, lines. Its children hold the parsers and what the
--                     components rely on.
--   Http              the HTTP functions of rust-engine/src/process.rs. Http/Splice is the loop that
--                     searches and replaces in place, Http/Authority `replace_url_authorities`,
--                     Http/Message `http_request_complete` and `http_response_complete`, Http/Response
--                     `rewrite_http_response` and `normalize_no_profile_delete_response`, Http/Redact
--                     `redact_http_text`.
--   Client            one local client: Client/Reader is `process_reader`, Client/Writer
--                     `process_writer`, Client/Connection `handle_client` of rust-engine/src/main.rs
--                     before and after its wait for the answer, Client/Startup the arguments, the
--                     shared state, the accept and the heartbeat loop of `main`. Client/Download,
--                     Client/Upload and Client/Answered compose them with the engine and the
--                     rewriting, and Client/Chunks is about how a response is cut.
--   System            all tasks of the engine and any number of clients: `System` is their state,
--                     `Step` what one task does from one of its locks or waits to the next, as `main`
--                     and `handle_client` of rust-engine/src/main.rs put the tasks together, and
--                     System/Reach a run. System/Channels, System/Quiet and System/Served are about
--                     what the clients' channels carry, System/Owed and System/Written about what
--                     the RTSP clients are written, System/Sent, System/Events and System/Heard about
--                     what the camera gets, System/Permits about `onvif_slots`, System/Settles about
--                     the queue and the inbox running empty, System/Told and System/Confirmed
--                     about the camera's CONN.
--   Settings          the settings that both files and rust-engine/src/ptcp.rs read from the
--                     environment.
--   Ptcp/Tests        the source's unit tests on the model, and each theorem at a concrete input;
--                     Engine/Tests, Http/Tests, Client/Tests, System/Tests and Settings/Tests do
--                     the same.
--   Utf8              `String::from_utf8_lossy`; a `String` is the list of its bytes.
--   Common            shared names, Boolean tests, lists, u32 words, bit masks, hash maps, panics.
--
-- The tasks of the engine share one `PTCPSession` behind a lock, so an interleaving is a sequence of
-- operations (Ptcp/Invariant/Run). In Engine/Run a turn of `dh_reader` goes from one of its locks to
-- the next, so that the other tasks can come in between `recv`, the acknowledgement and each packet
-- handed on; what is sent goes to `ptcp_request`. In System the steps are a relation, since the
-- scheduler, the clients and the network choose among them; the queue to `dh_writer` holds 128 events,
-- a client has the handle of its channel for a name, and a step that exits the process is left out,
-- since the run ends there. Fields that are noted for the theorems only, such as what was handed on and
-- what a client sent, have no influence on a step. An `Instant` and a `Duration`
-- count nanoseconds, and each reading of the clock is an argument; the subtraction of instants stops
-- at 0, as in the source. A `HashMap` is an association list with one entry for each key;
-- `gap_packets`, a usize, is not wrapped, since it is at most the number of pending packets.
--
-- `process_reader` and `process_writer` are functions of what their socket or their channel gives, up
-- to where they wait; the steps of `process_reader` at its end, one send and one lock, are taken
-- together. The bytes that come over a channel are those that the engine pushed on it.
-- `redact_http_text` is over the characters of a text, all other texts are over bytes. A usize has 64
-- bits and its sums wrap, as in the release build that Dockerfile makes.
--
-- Bounds and fuel: the loop of `drain_contiguous` takes as many rounds as there are pending packets,
-- the loop of `from_utf8_lossy` as many as there are bytes. The loops of `replace_url_authorities` and
-- `redact_http_text` take a round for each byte of the text that they start with: each round moves the
-- index behind at least one of these bytes, and the specification that they meet has no fuel. The
-- theorems about streams suppose that a stream has less than 2 ^ 31 bytes, half of the range of the
-- counters, wherever it starts; those about rewritten responses that they are less than 2 ^ 64 bytes.
--
-- A step goes from one lock or wait to the next. In two places locks that follow each other at once are
-- one step: the two that enter a realm in `handle_client`, and the three of a DISC.
--
-- The theorems of System about what comes from the camera suppose strict ordering, the default: the
-- variable P2P_ALLOW_GAP_SKIP does not allow gaps to be skipped. Ptcp/Receive/Order and
-- Ptcp/Receive/Video are about `recv` where it does.
--
-- Not modelled: the lines on the standard error; on the standard output those of `handle_client` and
-- `main`, of `dh_reader` about a realm that is closed or not available, and of `process_reader` at its
-- end; in rust-engine/src/main.rs the adoption of the sockets, in rust-engine/src/process.rs
-- `debug_http`, which nothing calls; the Python manager in app,
-- the vendored handshake in app/vendor, and the C workers in vendor-worker.
pub mod Common
pub mod Utf8
pub mod Ptcp
pub mod Engine
pub mod Bytes
pub mod Http
pub mod Client
pub mod Settings
pub mod System
