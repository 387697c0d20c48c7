-- ===== src/Client/Connection.antt =====
-- `handle_client` of rust-engine/src/main.rs: from an accepted connection to the two tasks that serve
-- it. Between the request and the answer other tasks run, so the two halves are functions of their own.
use dahua_p2p_bridge.Common.{
  ℕ, ◌+◌, ◌≡◌, ◌≢◌, refl, sym, ap, ◌∙◌, ◌⊎◌, inl, inr, Bool, true, false, not, ◌&&◌, Bool-cases,
  Option, none, some, List, [], ◌∷◌, ◌++◌, append-nil, ◌==◌, ==→eq, ==_refl, ne→==, if◌then◌else◌,
  arith,
}
pub mod Opens
use mathlib.Core.Bool.{false≢true}
use dahua_p2p_bridge.Common.HashMap.{HashMap, lookup, remove, insert, lookup-insert, lookup-remove}
use dahua_p2p_bridge.Ptcp.Wire.{PtcpBody, status}
use dahua_p2p_bridge.Http.{HttpRewriteConfig}
use dahua_p2p_bridge.Engine.{Shared, Channel, PtcpEvent, connect, conn_text, dispatch}
use dahua_p2p_bridge.Engine.Dispatch.{IsOpen, dispatch-IsOpen, Closes}

pub data Service : Type 0 where
  rtsp : Service
  onvif_http : Service

abbrev pub is_onvif : Service → Bool
is_onvif rtsp = false
is_onvif onvif_http = true

-- The realm's entries, and the channel with its receiver; `tx` and `conn` are new channels.
unfoldable pub open_realm : Shared → ℕ → ℕ → ℕ → Shared
open_realm s realm tx conn = record s {
  channels = insert realm tx s.channels;
  conn_channels = insert realm conn s.conn_channels;
  queues = insert tx (record { queue = []; has_receiver = true }) s.queues;
}

unfoldable pub forget_realm : Shared → ℕ → Shared
forget_realm s realm = record s {
  channels = remove realm s.channels;
  conn_channels = remove realm s.conn_channels;
}

-- How `handle_client` ends.
pub data ClientOutcome : Type 0 where
  gives_up : ClientOutcome
  exits : ℕ → ClientOutcome
  waits : ClientOutcome
  serves : Bool → Option HttpRewriteConfig → ClientOutcome

-- Up to the wait for the answer. `permit` says whether the semaphore gave one, and `sends` whether
-- `dh_writer` is there to take the event.
unfoldable pub request_realm :
    Service → Bool → Bool → Shared → ℕ → ℕ → ℕ → ℕ → Shared × List PtcpEvent × ClientOutcome
unfolding open_realm forget_realm
request_realm service permit sends s realm remote_port tx conn =
    let s' = open_realm s realm tx conn in
    if is_onvif service && not permit
    then (s, [], gives_up)
    else if sends
    then (s', connect realm remote_port ∷ [], waits)
    else (forget_realm s' realm, [], gives_up)

-- What the wait on `conn_rx` gives: a value, the loss of the sender, or a time-out.
pub data Answer : Type 0 where
  value : Bool → Answer
  sender_gone : Answer
  no_answer : Answer

-- `http_rewrite`: the local address is none if the socket has lost it.
abbrev pub http_rewrite : Service → Option (List ℕ × ℕ) → ℕ → Option HttpRewriteConfig
http_rewrite rtsp address rtsp_local_port = none
http_rewrite onvif_http none rtsp_local_port = none
http_rewrite onvif_http (some (host, port)) rtsp_local_port =
    some (record { host = host; onvif_port = port; rtsp_port = rtsp_local_port })

-- From the answer on.
unfoldable pub bind_realm :
    Service → Answer → Option (List ℕ × ℕ) → ℕ → Shared → ℕ → Shared × ClientOutcome
unfolding forget_realm
bind_realm service (value true) address rtsp_local_port s realm = (
  (if is_onvif service then record s { onvif_realm = some realm } else s),
  serves (is_onvif service) (http_rewrite service address rtsp_local_port),
)
bind_realm service _ address rtsp_local_port s realm = (forget_realm s realm, exits 75)
