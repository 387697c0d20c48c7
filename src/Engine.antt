-- ===== src/Engine.antt =====
-- The tasks of rust-engine/src/process.rs that stand between the session and the local clients:
-- `dh_writer`, which turns the clients' events into packets, and `dh_reader`, which acknowledges
-- what arrives and hands it on. The state behind the locks is `Shared`. An entry of `channels` or
-- `conn_channels` is the handle of a channel; what is sent over a channel stands under its handle,
-- so that two entries can share one, as clones of a sender do.
pub mod Dispatch
pub mod Carried
pub mod Told
pub mod Reader
pub mod Run
pub mod Tests
use dahua_p2p_bridge.Common.{
  ℕ, Bool, true, false, Option, none, some, List, [], ◌∷◌, ◌++◌, if◌then◌else◌, ◌==◌,
}
use dahua_p2p_bridge.Common.HashMap.{HashMap, lookup, remove, insert}
use dahua_p2p_bridge.Ptcp.Wire.{
  PtcpPayload, PtcpBody, PtcpPacket, payload, bind, status, heartbeat, empty, bytes_eq,
}
use dahua_p2p_bridge.Ptcp.Session.{PtcpSession, send}
use dahua_p2p_bridge.Ptcp.Receive.{Readings, recv}
use dahua_p2p_bridge.Ptcp.Retransmit.{due_retransmissions, has_retransmission_stall}

-- `PTCPEvent`
pub data PtcpEvent : Type 0 where
  beat : PtcpEvent
  connect : ℕ → ℕ → PtcpEvent
  disconnect : ℕ → PtcpEvent
  bytes_from : ℕ → List ℕ → PtcpEvent

-- The unbounded channel to a client's writer: what was sent over it so far, and whether the
-- receiver is still there.
pub record Channel : Type 0 where
  pub queue : List (List ℕ)
  pub has_receiver : Bool

pub record Shared : Type 0 where
  pub session : PtcpSession
  pub channels : HashMap ℕ
  pub conn_channels : HashMap ℕ
  pub onvif_realm : Option ℕ
  pub queues : HashMap Channel
  -- The oneshot channels on which `true` was sent.
  pub connected : List ℕ

abbrev pub conn_text : List ℕ
conn_text = b'C' ∷ b'O' ∷ b'N' ∷ b'N' ∷ []

abbrev pub disc_text : List ℕ
disc_text = b'D' ∷ b'I' ∷ b'S' ∷ b'C' ∷ []

-- The body that `dh_writer` sends for an event.
unfoldable pub event_body : PtcpEvent → PtcpBody
event_body beat = heartbeat
event_body (connect realm port) = bind realm port
event_body (disconnect realm) = status realm disc_text
event_body (bytes_from realm bytes) = payload (record { realm = realm; bytes = bytes })

-- One round of `dh_writer`: the packet that goes to `ptcp_request`.
unfoldable pub dh_writer_round : ℕ → Shared → PtcpEvent → Shared × PtcpPacket
dh_writer_round now s event =
    let (session, p) = send now s.session (event_body event) in (record s { session = session }, p)

-- `tx.send(data)`; without a receiver the data is dropped.
unfoldable pub push_channel : ℕ → List ℕ → HashMap Channel → HashMap Channel
push_channel handle bytes queues = elim (lookup handle queues) [
  | none ↦ queues
  | some c ↦
      if c.has_receiver
      then insert handle (record c { queue = c.queue ++ (bytes ∷ []) }) queues
      else queues
]

-- `sender.send(true)` for an entry of `conn_channels`.
abbrev pub notify : Option ℕ → List ℕ → List ℕ
notify none connected = connected
notify (some handle) connected = handle ∷ connected

abbrev pub is_realm : Option ℕ → ℕ → Bool
is_realm none realm = false
is_realm (some r) realm = r == realm

on_conn : Shared → ℕ → Shared
on_conn s realm = record s {
  conn_channels = remove realm s.conn_channels;
  connected = notify (lookup realm s.conn_channels) s.connected;
}

on_disc : Shared → ℕ → Shared
on_disc s realm = record s {
  channels = remove realm s.channels;
  conn_channels = remove realm s.conn_channels;
  onvif_realm = if is_realm s.onvif_realm realm then none else s.onvif_realm;
}

on_payload : Shared → PtcpPayload → Shared
on_payload s p = elim (lookup p.realm s.channels) [
  | none ↦ s
  | some handle ↦ record s { queues = push_channel handle p.bytes s.queues }
]

-- The match on a delivered packet's body in `dh_reader`.
unfoldable pub dispatch : Shared → PtcpBody → Shared
unfolding on_conn on_disc on_payload
dispatch s (status realm text) =
    if bytes_eq text conn_text
    then on_conn s realm
    else if bytes_eq text disc_text
    then on_disc s realm
    else s
dispatch s (payload p) = on_payload s p
dispatch s _ = s

-- Where `dh_reader` stands between two of its locks: at `ptcp_read`, before the acknowledgement, or
-- with delivered packets to hand on.
pub data ReaderAt : Type 0 where
  reading : ReaderAt
  answering : List PtcpPacket → ReaderAt
  handing : List PtcpPacket → ReaderAt

-- The tasks' shared state, the place of `dh_reader`, and the packets that `ptcp_read` is going to
-- return, with what `recv` reads of its surroundings then.
pub record Engine : Type 0 where
  pub shared : Shared
  pub reader : ReaderAt
  pub inbox : List (Readings × PtcpPacket)

-- `should_ack`: whether an acknowledgement comes first.
abbrev pub after_recv : PtcpBody → List PtcpPacket → ReaderAt
after_recv empty packets = handing packets
after_recv _ packets = answering packets

-- `dh_reader` from one lock to the next, and the packets that go to `ptcp_request`. It waits while
-- nothing arrives.
unfoldable pub dh_reader_at :
    ℕ → Shared → List (Readings × PtcpPacket) → ReaderAt → Engine × List PtcpPacket
dh_reader_at now s [] reading = (record { shared = s; reader = reading; inbox = [] }, [])
dh_reader_at now s ((r, packet) ∷ inbox) reading =
    let (session, packets) = recv r s.session packet in
    (
      record {
        shared = record s { session = session };
        reader = after_recv packet.body packets;
        inbox = inbox;
      },
      [],
    )
dh_reader_at now s inbox (answering packets) =
    let (session, ack) = send now s.session empty in
    (
      record { shared = record s { session = session }; reader = handing packets; inbox = inbox },
      ack ∷ [],
    )
dh_reader_at now s inbox (handing []) = (record { shared = s; reader = reading; inbox = inbox }, [])
dh_reader_at now s inbox (handing (packet ∷ packets)) =
    (record { shared = dispatch s packet.body; reader = handing packets; inbox = inbox }, [])

-- One round of the retransmission task of rust-engine/src/main.rs, and the packets that go to
-- `ptcp_request`; none where it exits with 75 instead. It reads the clock for what is due, then for
-- the stall.
unfoldable pub retransmit_round : ℕ → ℕ → Shared → Option (Shared × List PtcpPacket)
retransmit_round due_at tested_at s =
    let (session, packets) = due_retransmissions due_at s.session in
    if has_retransmission_stall tested_at session
    then none
    else some (record s { session = session }, packets)
