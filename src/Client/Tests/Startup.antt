-- ===== src/Client/Tests/Startup.antt =====
-- What `main` of rust-engine/src/main.rs starts, at concrete inputs.
use dahua_p2p_bridge.Common.{◌≡◌, refl, true, false, none, some, [], ◌∷◌}
use dahua_p2p_bridge.Bytes.{codes, to_ascii_lowercase}
use dahua_p2p_bridge.Bytes.Trim.{trim}
use dahua_p2p_bridge.Ptcp.Session.{from_state, set_allow_gap_skip}
use dahua_p2p_bridge.Engine.{beat}
use dahua_p2p_bridge.Settings.{allow_gap_skip}
use dahua_p2p_bridge.Client.Connection.{rtsp, onvif_http}
use dahua_p2p_bridge.Client.Startup.{
  Cli, adopt_session, rtsp_local_port, accept, from_rtsp, from_http, heartbeat_round,
}

abbrev args : Cli
args = record {
  udp_fd = 3;
  listener_fd = 4;
  http_listener_fd = 5;
  remote_port = 8554;
  rtsp_public_port = some 15540;
  session_sent = 1;
  session_recv = 2;
  session_count = 3;
  session_id = 4;
  session_rmid = 5;
}

accepts_rtsp : accept args (from_rtsp true) ≡ some (8554, rtsp)
unfolding accept
accepts_rtsp = refl

accepts_http : accept args (from_http true) ≡ some (80, onvif_http)
unfolding accept
accepts_http = refl

goes_on_after_error : accept args (from_http false) ≡ none
unfolding accept
goes_on_after_error = refl

public_port : rtsp_local_port args 9 ≡ 15540
unfolding rtsp_local_port
public_port = refl

adopts_counters :
    adopt_session 0 args (some (codes "TRUE")) ≡ set_allow_gap_skip (from_state 0 1 2 3 4 5) true
unfolding adopt_session allow_gap_skip trim to_ascii_lowercase
adopts_counters = refl

beats : heartbeat_round true ≡ (beat ∷ [], true)
unfolding heartbeat_round
beats = refl
