-- ===== src/Engine/Tests.antt =====
-- The rounds of the engine's tasks at concrete inputs.
use dahua_p2p_bridge.Common.{
  ℕ, ◌^◌, ◌<◌, ◌≡◌, ◌≢◌, refl, inl, inr, true, none, List, [], ◌∷◌, In, All, arith,
}
use dahua_p2p_bridge.Ptcp.Wire.{PtcpPacket, payload, status, empty, len}
use dahua_p2p_bridge.Ptcp.Session.{from_millis, PtcpSession}
use dahua_p2p_bridge.Ptcp.Stream.{stream_bytes, IsStream}
use dahua_p2p_bridge.Ptcp.Receive.{Readings, recv}
use dahua_p2p_bridge.Ptcp.Receive.Strict.{strict_session}
use dahua_p2p_bridge.Engine.{Shared, Engine, reading, handing, bytes_from, dh_reader_at, conn_text}
use dahua_p2p_bridge.Engine.Reader.{IsAck, dh_reader_at-IsAck}
use dahua_p2p_bridge.Engine.Run.{Turn, writes, resends, run}
use dahua_p2p_bridge.Engine.Run.Flow.{packets_in}
use dahua_p2p_bridge.Ptcp.Receive.Progress.{Arrives}

abbrev pub at_start : Readings
at_start = record { gap_timeout = from_millis 2000; gap_opened = 0; gap_tested = 0; drained = 0 }

-- The camera's counter wraps inside the first packet.
abbrev pub base : ℕ
base = 0xffff_fff8

abbrev accepted : PtcpPacket
accepted = record {
  sent = base;
  recv = 0;
  pid = 0xffff;
  lmid = 0;
  rmid = 0;
  body = status 7 conn_text;
}

abbrev video : PtcpPacket
video = record {
  sent = 8;
  recv = 0;
  pid = 0xfffe;
  lmid = 1;
  rmid = 0;
  body = payload (record { realm = 7; bytes = 1 ∷ 2 ∷ [] });
}

abbrev other : PtcpPacket
other = record {
  sent = 22;
  recv = 0;
  pid = 0xfffd;
  lmid = 2;
  rmid = 0;
  body = payload (record { realm = 9; bytes = 3 ∷ [] });
}

abbrev pub ps : List PtcpPacket
ps = accepted ∷ video ∷ other ∷ []

abbrev session : PtcpSession
session = strict_session 0 0 base 0 0 0

abbrev shared : Shared
shared = record {
  session = session;
  channels = (7, 1) ∷ [];
  conn_channels = (7, 2) ∷ [];
  onvif_realm = none;
  queues = (1, record { queue = []; has_receiver = true }) ∷ [];
  connected = [];
}

-- The video comes first, and twice.
abbrev pub engine : Engine
engine = record {
  shared = shared;
  reader = reading;
  inbox = (at_start, video) ∷ (at_start, video) ∷ (at_start, accepted) ∷ (at_start, other) ∷ [];
}

pub ps-IsStream : IsStream base 0 ps
unfolding len
ps-IsStream = omega arith

pub ps_small : stream_bytes ps < 2 ^ 31
unfolding len
ps_small = omega arith

pub inbox-Arrives : All (λ a. Arrives ps a.1) engine.inbox
inbox-Arrives = (
  inl (inr (inl refl)),
  (inl (inr (inl refl)), (inl (inl refl), (inl (inr (inr (inl refl))), tt))),
)

pub all_arrive : (q : PtcpPacket) → In q ps → In q (packets_in engine.inbox)
all_arrive q (inl e) = inr (inr (inl e))
all_arrive q (inr (inl e)) = inl e
all_arrive q (inr (inr (inl e))) = inr (inr (inr (inl e)))
all_arrive q (inr (inr (inr i))) = absurd i

abbrev others : List Turn
others = writes 1 (bytes_from 7 (5 ∷ [])) ∷ resends 2 2 ∷ []

dh_reader_at-IsAck_example :
    let e = (dh_reader_at 1 shared ((at_start, video) ∷ []) reading).0 in
    let e' = (run e others).0 in
    (video.body ≡ empty → e.reader ≡ handing (recv at_start session video).1)
    × (video.body ≢ empty
        → (ack : PtcpPacket) × ((dh_reader_at 3 e'.shared e'.inbox e'.reader).1 ≡ ack ∷ [])
          × IsAck at_start session video ack)
dh_reader_at-IsAck_example = dh_reader_at-IsAck 1 3 shared at_start video [] others (tt, (tt, tt))
