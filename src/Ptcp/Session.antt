-- ===== src/Ptcp/Session.antt =====
-- `PTCPSession` of rust-engine/src/ptcp.rs: the state of a session, `send` and `acknowledge_sent`.
-- An `Instant` and a `Duration` count nanoseconds; each reading of the clock is an argument.
pub mod Send
pub mod Window
use dahua_p2p_bridge.Common.{
  ℕ, ◌*◌, Bool, true, ◌||◌, Option, none, List, [], ◌∷◌, ◌++◌, leb, ltb, ◌==◌, if◌then◌else◌,
  length,
}
use dahua_p2p_bridge.Common.Words.{as_u32, wrapping_add, wrapping_sub}
use dahua_p2p_bridge.Common.HashMap.{HashMap}
use dahua_p2p_bridge.Ptcp.Wire.{PtcpBody, PtcpPacket, sync, empty, len}
use dahua_p2p_bridge.Ptcp.Sequence.{sequence_after}

pub record TrackedPacket : Type 0 where
  pub packet : PtcpPacket
  pub last_sent : ℕ
  pub retries : ℕ

pub record PtcpSession : Type 0 where
  pub sent : ℕ
  pub recv : ℕ
  pub count : ℕ
  pub id : ℕ
  pub rmid : ℕ
  pub pending : HashMap PtcpPacket
  pub gap_packets : ℕ
  pub gap_since : Option ℕ
  pub last_progress : ℕ
  pub sent_window : List TrackedPacket
  pub allow_gap_skip : Bool

-- `Duration::from_millis` and `Duration::from_secs`.
abbrev pub from_millis : ℕ → ℕ
from_millis n = n * 1_000_000

abbrev pub from_secs : ℕ → ℕ
from_secs n = n * 1_000_000_000

abbrev pub gap_packet_limit : ℕ
gap_packet_limit = 32

abbrev pub retransmit_after : ℕ
retransmit_after = from_millis 600

abbrev pub max_retransmits : ℕ
max_retransmits = 50

abbrev pub max_sent_window : ℕ
max_sent_window = 2048

-- `PTCPSession::from_state`, at the instant `now`.
unfoldable pub from_state : ℕ → ℕ → ℕ → ℕ → ℕ → ℕ → PtcpSession
from_state now sent recv count id rmid = record {
  sent = sent;
  recv = recv;
  count = count;
  id = id;
  rmid = rmid;
  pending = [];
  gap_packets = 0;
  gap_since = none;
  last_progress = now;
  sent_window = [];
  allow_gap_skip = true;
}

-- `PTCPSession::new`
unfoldable pub new : ℕ → PtcpSession
unfolding from_state
new now = from_state now 0 0 0 0 0

unfoldable pub set_allow_gap_skip : PtcpSession → Bool → PtcpSession
set_allow_gap_skip s allow = record s { allow_gap_skip = allow }

-- The `pid` of a packet, and what it adds to `count`.
abbrev pub packet_pid : PtcpBody → ℕ → ℕ
packet_pid sync count = 0x0002ffff
packet_pid _ count = wrapping_sub 0x0000ffff count

abbrev pub count_step : PtcpBody → ℕ
count_step sync = 0
count_step empty = 0
count_step _ = 1

-- `sent_window.pop_front()`
abbrev pub pop_front {ℓ} : {A : Type ℓ} → List A → List A
pop_front [] = []
pop_front (x ∷ xs) = xs

-- The window with one packet more; the oldest goes if it is full.
unfoldable pub track : ℕ → PtcpPacket → List TrackedPacket → List TrackedPacket
track now packet window =
    (if leb max_sent_window (length window) then pop_front window else window)
    ++ (record { packet = packet; last_sent = now; retries = 0 } ∷ [])

unfoldable pub send : ℕ → PtcpSession → PtcpBody → PtcpSession × PtcpPacket
send now s body =
    let packet : PtcpPacket = record {
      sent = s.sent;
      recv = s.recv;
      pid = packet_pid body s.count;
      lmid = s.id;
      rmid = s.rmid;
      body = body;
    } in
    let window = if ltb 0 (len body) then track now packet s.sent_window else s.sent_window in
    (
      record s {
        sent = wrapping_add s.sent (as_u32 (len body));
        id = wrapping_add s.id 1;
        count = wrapping_add s.count (count_step body);
        sent_window = window;
      },
      packet,
    )

-- Where the bytes of a packet end.
abbrev pub packet_end : PtcpPacket → ℕ
packet_end p = wrapping_add p.sent (as_u32 (len p.body))

-- The loop of `acknowledge_sent`: packets that end at or before `remote_recv` leave at the front.
unfoldable pub prune : ℕ → List TrackedPacket → List TrackedPacket
prune remote_recv [] = []
prune remote_recv (t ∷ window) =
    let rest = prune remote_recv window in
    if packet_end t.packet == remote_recv || sequence_after remote_recv (packet_end t.packet)
    then rest
    else t ∷ window

unfoldable pub acknowledge_sent : PtcpSession → ℕ → PtcpSession
acknowledge_sent s remote_recv = record s { sent_window = prune remote_recv s.sent_window }
