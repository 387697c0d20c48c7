-- ===== src/Engine/Run/Inbound.antt =====
-- What sending and retransmitting leave alone: the receiving side of a session.
use dahua_p2p_bridge.Common.{ℕ, ◌≡◌, refl, ◌∙◌, List}
use dahua_p2p_bridge.Ptcp.Wire.{PtcpBody, PtcpPacket}
use dahua_p2p_bridge.Ptcp.Session.{PtcpSession, send}
use dahua_p2p_bridge.Ptcp.Receive.Progress.{Progress}
use dahua_p2p_bridge.Ptcp.Retransmit.{due_retransmissions}

-- The two sessions agree on what the receiving side works with.
unfoldable pub SameInbound : PtcpSession → PtcpSession → Type 0
SameInbound s t =
    (s.recv ≡ t.recv) × (s.pending ≡ t.pending) × (s.allow_gap_skip ≡ t.allow_gap_skip)

pub Progress-SameInbound :
    (base : ℕ) (ps : List PtcpPacket) (s t : PtcpSession) (done : List PtcpPacket)
    → SameInbound t s
    → Progress base ps s done
    → Progress base ps t done
unfolding SameInbound
Progress-SameInbound base ps s t done (a, b, c) g = record {
  held = record {
    left = g.held.left;
    split = g.held.split;
    recv_at = a ∙ g.held.recv_at;
    waiting = rw b g.held.waiting;
    strict = c ∙ g.held.strict;
  };
  drained = rw (a, b) g.drained;
}

pub send-SameInbound :
    (now : ℕ) (s : PtcpSession) (body : PtcpBody) → SameInbound (send now s body).0 s
unfolding SameInbound send
send-SameInbound now s body = (refl, refl, refl)

pub due_retransmissions-SameInbound :
    (now : ℕ) (s : PtcpSession) → SameInbound (due_retransmissions now s).0 s
unfolding SameInbound due_retransmissions
due_retransmissions-SameInbound now s = (refl, refl, refl)
