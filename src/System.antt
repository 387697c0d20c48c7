-- ===== src/System.antt =====
-- The engine with all of its tasks, as `main` and `handle_client` of rust-engine/src/main.rs put them
-- together: `dh_reader`, `dh_writer`, the retransmission task, the heartbeats, and for each client the
-- tasks that ask for its realm, read from it and write to it. A step is what one task does from one of
-- its locks or waits to the next, so a run is any interleaving; the two locks under which
-- `handle_client` enters a realm, and the three of a DISC, are one step. A run ends where the process
-- exits.
pub mod Reach
pub mod Channels
pub mod Quiet
pub mod Served
pub mod Permits
pub mod Sent
pub mod Events
pub mod Heard
pub mod Owed
pub mod Written
pub mod Settles
pub mod Told
pub mod Confirmed
mod Tests
use dahua_p2p_bridge.Common.{
  ℕ, zero, suc, ◌+◌, ◌-◌, ◌<◌, ◌≤◌, ◌≡◌, ◌≢◌, Bool, true, false, Option, none, some, List, [], ◌∷◌,
  ◌++◌, In, length, take, replicate, if◌then◌else◌,
}
use dahua_p2p_bridge.Common.Words.{IsU32}
use dahua_p2p_bridge.Common.HashMap.{HashMap, lookup, insert}
use dahua_p2p_bridge.Ptcp.Wire.{PtcpPacket}
use dahua_p2p_bridge.Ptcp.Receive.{Readings}
use dahua_p2p_bridge.Http.{HttpRewriteConfig}
use dahua_p2p_bridge.Engine.{
  Shared, Channel, Engine, ReaderAt, reading, answering, handing, PtcpEvent, beat, connect,
  dh_reader_at, dh_writer_round, retransmit_round,
}
use dahua_p2p_bridge.Engine.Run.Flow.{in_front}
use dahua_p2p_bridge.Client.Reader.{
  ReaderState, initial_reader, got, note_request, reader_ends, process_reader, IsChunk,
}
use dahua_p2p_bridge.Client.Writer.{WriterRun, process_writer}
use dahua_p2p_bridge.Client.Connection.{
  Service, is_onvif, open_realm, value, http_rewrite, bind_realm,
}
use dahua_p2p_bridge.Client.Startup.{Cli, initial_shared}

-- The place of `handle_client`, and then of `process_reader`: before its send of the request, at its
-- wait for the answer, in its loop, behind its loop with the realm's entry still there, at its end.
pub data ReaderStage : Type 0 where
  opening : ReaderStage
  asking : ReaderStage
  serving : ReaderState → ReaderStage
  closing : ReaderStage
  ended : ReaderStage

-- The place of `process_writer`, which has taken that many chunks.
pub data WriterStage : Type 0 where
  unstarted : WriterStage
  writing : ℕ → WriterStage
  stopped : WriterStage

-- A client. Its channels have its key in `clients` for a handle. The last three fields are noted for the
-- theorems only: how many packets had been handed on when its channel was made, what it sent, and what
-- was written to it.
pub record Client : Type 0 where
  pub service : Service
  pub realm : ℕ
  pub remote_port : ℕ
  pub rewrite : Option HttpRewriteConfig
  pub reader : ReaderStage
  pub writer : WriterStage
  pub opened_at : ℕ
  pub chunks : List (List ℕ)
  pub written : List (List ℕ)

-- `events` is the queue from the clients to `dh_writer`, `permits` those left in `onvif_slots`. The last
-- three fields are noted for the theorems only: what `dh_reader` handed on, what `dh_writer` took, and
-- what went to `ptcp_request`.
pub record System : Type 0 where
  pub engine : Engine
  pub events : List PtcpEvent
  pub clients : HashMap Client
  pub next : ℕ
  pub permits : ℕ
  pub handed : List PtcpPacket
  pub taken : List (ℕ × PtcpEvent)
  pub sent : List PtcpPacket

-- `mpsc::channel::<PTCPEvent>(128)`
abbrev pub HasRoom : System → Type 0
HasRoom y = length y.events < 128

abbrev pub with_shared : System → Shared → System
with_shared y s = record y { engine = record y.engine { shared = s } }

abbrev pub post : System → List PtcpEvent → System
post y events = record y { events = y.events ++ events }

abbrev pub put : System → ℕ → Client → System
put y handle c = record y { clients = insert handle c y.clients }

abbrev pub permits_of : Service → ℕ
permits_of service = if is_onvif service then 1 else 0

abbrev pub new_client : Service → ℕ → ℕ → ℕ → Client
new_client service realm remote_port opened_at = record {
  service = service;
  realm = realm;
  remote_port = remote_port;
  rewrite = none;
  reader = opening;
  writer = unstarted;
  opened_at = opened_at;
  chunks = [];
  written = [];
}

-- What `process_writer` has done with the chunks so far; the last write had this result.
abbrev pub writer_run : System → Client → Bool → List (List ℕ) → Bool → WriterRun
writer_run y c closed chunks result =
    process_writer c.rewrite c.realm y.engine.shared closed chunks
      (replicate (length chunks - 1) true ++ (result ∷ []))

-- The writer returns: its receiver and its permit are dropped.
abbrev pub stop : System → ℕ → Client → Channel → WriterRun → System
stop y handle c channel run =
    record (put
      (with_shared y (record run.shared {
        queues = insert handle (record channel { has_receiver = false }) run.shared.queues;
      }))
      handle (record c { writer = stopped; written = run.written })) {
        permits = y.permits + permits_of c.service;
      }

pub data Step (y : System) : System → Type 0 where
  reads :
      (now : ℕ)
      → Step y (record y {
        engine = (dh_reader_at now y.engine.shared y.engine.inbox y.engine.reader).0;
        handed = y.handed ++ in_front y.engine.reader;
        sent = y.sent ++ (dh_reader_at now y.engine.shared y.engine.inbox y.engine.reader).1;
      })
  takes :
      (now : ℕ) (event : PtcpEvent) (events : List PtcpEvent)
      → y.events ≡ event ∷ events
      → Step y (record (with_shared y (dh_writer_round now y.engine.shared event).0) {
        events = events;
        taken = y.taken ++ ((now, event) ∷ []);
        sent = y.sent ++ ((dh_writer_round now y.engine.shared event).1 ∷ []);
      })
  resends :
      (due_at tested_at : ℕ) (s : Shared) (packets : List PtcpPacket)
      → retransmit_round due_at tested_at y.engine.shared ≡ some (s, packets)
      → Step y (record (with_shared y s) { sent = y.sent ++ packets })
  beats : HasRoom y → Step y (post y (beat ∷ []))
  opens :
      (service : Service) (realm remote_port : ℕ)
      → IsU32 realm
      → IsU32 remote_port
      → permits_of service ≤ y.permits
      → Step y
          (record (put
            (with_shared y (open_realm y.engine.shared realm y.next y.next))
            y.next
            (new_client service realm remote_port (length y.handed))) {
              next = y.next + 1;
              permits = y.permits - permits_of service;
            })
  asks :
      (handle : ℕ) (c : Client)
      → lookup handle y.clients ≡ some c
      → c.reader ≡ opening
      → HasRoom y
      → Step y
          (put (post y (connect c.realm c.remote_port ∷ [])) handle (record c { reader = asking }))
  binds :
      (handle : ℕ) (c : Client) (address : Option (List ℕ × ℕ)) (rtsp_port : ℕ)
      → lookup handle y.clients ≡ some c
      → c.reader ≡ asking
      → c.writer ≡ unstarted
      → In handle y.engine.shared.connected
      → Step y (
          put
            (with_shared y
              (bind_realm c.service (value true) address rtsp_port y.engine.shared c.realm).0)
            handle
            (record c {
              reader = serving initial_reader;
              writer = writing 0;
              rewrite = http_rewrite c.service address rtsp_port;
              written = [];
            }))
  receives :
      (handle : ℕ) (c : Client) (st : ReaderState) (bytes : List ℕ)
      → lookup handle y.clients ≡ some c
      → c.reader ≡ serving st
      → IsChunk bytes
      → length bytes ≤ 4096
      → HasRoom y
      → Step y (
          put
            (post y
              (process_reader c.realm (is_onvif c.service) st y.engine.shared (got bytes ∷ [])).1)
            handle
            (record c {
              reader = serving (note_request (is_onvif c.service) st bytes);
              chunks = c.chunks ++ (bytes ∷ []);
            }))
  ends :
      (handle : ℕ) (c : Client) (st : ReaderState)
      → lookup handle y.clients ≡ some c
      → c.reader ≡ serving st
      → (is_onvif c.service ≡ false → HasRoom y)
      → Step y (
          put
            (post y (reader_ends c.realm (is_onvif c.service) y.engine.shared).1)
            handle
            (record c { reader = closing }))
  closes :
      (handle : ℕ) (c : Client)
      → lookup handle y.clients ≡ some c
      → c.reader ≡ closing
      → Step y (
          put
            (with_shared y (reader_ends c.realm (is_onvif c.service) y.engine.shared).0)
            handle
            (record c { reader = ended }))
  relays :
      (handle n : ℕ) (c : Client) (channel : Channel) (result : Bool)
      → lookup handle y.clients ≡ some c
      → c.writer ≡ writing n
      → lookup handle y.engine.shared.queues ≡ some channel
      → n < length channel.queue
      → (writer_run y c false (take (n + 1) channel.queue) result).has_ended ≡ false
      → Step y (
          put y handle (record c {
            writer = writing (n + 1);
            written = (writer_run y c false (take (n + 1) channel.queue) result).written;
          }))
  finishes :
      (handle n : ℕ) (c : Client) (channel : Channel) (result : Bool)
      → lookup handle y.clients ≡ some c
      → c.writer ≡ writing n
      → lookup handle y.engine.shared.queues ≡ some channel
      → n < length channel.queue
      → (writer_run y c false (take (n + 1) channel.queue) result).has_ended ≡ true
      → Step y (stop y handle c channel (writer_run y c false (take (n + 1) channel.queue) result))
  hangs_up :
      (handle n : ℕ) (c : Client) (channel : Channel)
      → lookup handle y.clients ≡ some c
      → c.writer ≡ writing n
      → lookup handle y.engine.shared.queues ≡ some channel
      → length channel.queue ≤ n
      → ((realm : ℕ) → lookup realm y.engine.shared.channels ≢ some handle)
      → Step y (stop y handle c channel (writer_run y c true channel.queue true))

-- What `main` starts, before its first client; `inbox` is what `ptcp_read` is going to return.
abbrev pub initial : ℕ → Cli → Option (List ℕ) → List (Readings × PtcpPacket) → System
initial now args gap_variable inbox = record {
  engine = record {
    shared = initial_shared now args gap_variable;
    reader = reading;
    inbox = inbox;
  };
  events = [];
  clients = [];
  next = 0;
  permits = 1;
  handed = [];
  taken = [];
  sent = [];
}
