-- ===== src/Client/Startup.antt =====
-- `main` of rust-engine/src/main.rs: the arguments, the state that the tasks share at the start, the two
-- listeners and the heartbeats.
use dahua_p2p_bridge.Common.{ℕ, Bool, true, false, Option, none, some, List, [], ◌∷◌, if◌then◌else◌}
use dahua_p2p_bridge.Ptcp.Session.{PtcpSession, from_state, set_allow_gap_skip}
use dahua_p2p_bridge.Engine.{Shared, PtcpEvent, beat}
use dahua_p2p_bridge.Settings.{allow_gap_skip}
use dahua_p2p_bridge.Client.Connection.{Service, rtsp, onvif_http}

-- `Cli`; the default of `remote_port` is put in by the parser of the arguments.
pub record Cli : Type 0 where
  pub udp_fd : ℕ
  pub listener_fd : ℕ
  pub http_listener_fd : ℕ
  pub remote_port : ℕ
  pub rtsp_public_port : Option ℕ
  pub session_sent : ℕ
  pub session_recv : ℕ
  pub session_count : ℕ
  pub session_id : ℕ
  pub session_rmid : ℕ

-- The session that was authenticated elsewhere, with the gap policy of the environment.
unfoldable pub adopt_session : ℕ → Cli → Option (List ℕ) → PtcpSession
adopt_session now args gap_variable =
    set_allow_gap_skip
      (from_state now args.session_sent args.session_recv args.session_count args.session_id
        args.session_rmid)
      (allow_gap_skip gap_variable)

-- What the tasks share when they are spawned.
unfoldable pub initial_shared : ℕ → Cli → Option (List ℕ) → Shared
unfolding adopt_session
initial_shared now args gap_variable = record {
  session = adopt_session now args gap_variable;
  channels = [];
  conn_channels = [];
  onvif_realm = none;
  queues = [];
  connected = [];
}

-- `rtsp_local_port`, where `listener_port` is that of the adopted listener.
unfoldable pub rtsp_local_port : Cli → ℕ → ℕ
rtsp_local_port args listener_port = elim args.rtsp_public_port [
  | none ↦ listener_port
  | some port ↦ port
]

-- Which listener gave a result, and whether it is a client.
pub data Accepted : Type 0 where
  from_rtsp : Bool → Accepted
  from_http : Bool → Accepted

-- The port at the camera and the service of an accepted client; none where `accept` failed.
unfoldable pub accept : Cli → Accepted → Option (ℕ × Service)
accept args (from_rtsp accepted) = elim accepted [
  | true ↦ some (args.remote_port, rtsp)
  | false ↦ none
]
accept args (from_http accepted) = elim accepted [ true ↦ some (80, onvif_http) | false ↦ none ]

-- A round of the loop that sends heartbeats: the event, and whether the loop goes on. `sends` says
-- whether `dh_writer` is there to take the event.
unfoldable pub heartbeat_round : Bool → List PtcpEvent × Bool
heartbeat_round sends = if sends then (beat ∷ [], true) else ([], false)
