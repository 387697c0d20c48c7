-- ===== src/Client/Download.antt =====
-- From the camera to a client: the start, `handle_client`, the tasks of the engine in any order, and
-- `process_writer`.
use dahua_p2p_bridge.Common.{
  ℕ, ◌^◌, ◌≤◌, ◌<◌, ◌≡◌, refl, ap, Bool, true, false, none, some, Option, List, [], In, All, length,
}
use dahua_p2p_bridge.Common.Words.{IsU32}
use dahua_p2p_bridge.Common.HashMap.{lookup}
use mathlib.Core.Option.{none-ne-some}
use dahua_p2p_bridge.Ptcp.Session.{from_state, set_allow_gap_skip}
use dahua_p2p_bridge.Ptcp.Wire.{PtcpPacket}
use dahua_p2p_bridge.Ptcp.Stream.{stream_bytes, IsStream}
use dahua_p2p_bridge.Ptcp.Receive.{Readings}
use dahua_p2p_bridge.Ptcp.Receive.Progress.{Arrives}
use dahua_p2p_bridge.Engine.{Shared, Engine, reading}
use dahua_p2p_bridge.Engine.Dispatch.{Closes, payloads_of}
use dahua_p2p_bridge.Engine.Run.{Turn, run}
use dahua_p2p_bridge.Engine.Run.Flow.{packets_in}
use dahua_p2p_bridge.Engine.Run.Clients.{IsReady, run_channel_complete}
use dahua_p2p_bridge.Settings.{allow_gap_skip}
use dahua_p2p_bridge.Client.Writer.Relays.{process_writer_relay}
use dahua_p2p_bridge.Client.Writer.{process_writer}
use dahua_p2p_bridge.Client.Connection.{rtsp, request_realm}
use dahua_p2p_bridge.Client.Connection.Opens.{request_realm_opens}
use dahua_p2p_bridge.Client.Startup.{Cli, adopt_session, initial_shared}

module _ (now realm remote_port tx conn : ℕ) (args : Cli) (gap_variable : Option (List ℕ))
    (inbox : List (Readings × PtcpPacket)) where
  -- The engine after the request of the first client.
  abbrev first_client : Engine
  first_client = record {
    shared =
        (request_realm rtsp true true (initial_shared now args gap_variable) realm remote_port tx
          conn).0;
    reader = reading;
    inbox = inbox;
  }

  first_client-IsReady :
      allow_gap_skip gap_variable ≡ false → IsReady args.session_recv first_client realm tx
  unfolding initial_shared adopt_session request_realm lookup
  first_client-IsReady strict =
      let opened =
        request_realm_opens rtsp (initial_shared now args gap_variable) realm remote_port tx conn
          (λ other e. none-ne-some tx e) in
      record {
        fresh = (
          now,
          args.session_sent,
          args.session_count,
          args.session_id,
          args.session_rmid,
          ap
              (set_allow_gap_skip (
                from_state now args.session_sent args.session_recv args.session_count
                  args.session_id args.session_rmid))
              strict,
        );
        registered = opened.0.2;
        idle = refl;
      }

  -- From the start to the client's socket. An engine that starts with strict ordering opens a realm for
  -- its first RTSP client; then its tasks take turns in any order, while packets of the camera arrive in
  -- any order, more than once or mixed with packets without bytes. When all packets of the camera have
  -- been read and handed on, and no write to the client fails, the client has been written exactly the
  -- payloads of its realm, in the camera's order. The camera does not close the realm, and its packets
  -- are less than 2 ^ 31 bytes.
  first_client_complete :
      (ps : List PtcpPacket) (turns : List Turn) (s : Shared) (closed : Bool) (results : List Bool)
      → allow_gap_skip gap_variable ≡ false
      → IsU32 args.session_recv
      → IsStream args.session_recv 0 ps
      → stream_bytes ps < 2 ^ 31
      → ((p : PtcpPacket) → In p ps → ¬ Closes realm p.body)
      → All (λ a. Arrives ps a.1) inbox
      → ((q : PtcpPacket) → In q ps → In q (packets_in inbox))
      → (run first_client turns).0.inbox ≡ []
      → (run first_client turns).0.reader ≡ reading
      → All (λ r. r ≡ true) results
      → length (payloads_of realm ps) ≤ length results
      → (chunks : List (List ℕ)) × (lookup tx (run first_client turns).0.shared.queues
          ≡ some (record { queue = chunks; has_receiver = true }))
        × ((process_writer none realm s closed chunks results).written ≡ payloads_of realm ps)
  first_client_complete ps turns s closed results strict fits stream small open_to arrive every read
        waits succeed enough =
      (
        payloads_of realm ps,
        run_channel_complete args.session_recv ps first_client realm tx turns fits
            (first_client-IsReady strict) stream small open_to arrive every read waits,
        (process_writer_relay realm s closed (payloads_of realm ps) results).2 succeed enough,
      )
