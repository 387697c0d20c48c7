-- ===== src/Ptcp/Retransmit.antt =====
-- `has_retransmission_stall` and `due_retransmissions` of rust-engine/src/ptcp.rs.
pub mod Budget
use dahua_p2p_bridge.Common.{ℕ, ◌+◌, ◌-◌, Bool, ◌&&◌, List, [], ◌∷◌, leb, ltb, if◌then◌else◌, any}
use dahua_p2p_bridge.Ptcp.Wire.{PtcpPacket}
use dahua_p2p_bridge.Ptcp.Session.{
  PtcpSession, TrackedPacket, from_secs, max_retransmits, retransmit_after,
}

-- `has_retransmission_stall`, at the instant `now`.
unfoldable pub has_retransmission_stall : ℕ → PtcpSession → Bool
has_retransmission_stall now s =
    any (λ t. leb max_retransmits t.retries && leb (from_secs 15) (now - s.last_progress))
      s.sent_window

-- One entry of the window is sent again if it is due.
abbrev pub is_due : ℕ → TrackedPacket → Bool
is_due now t = ltb t.retries max_retransmits && leb retransmit_after (now - t.last_sent)

unfoldable pub retransmit : ℕ → List TrackedPacket → List TrackedPacket × List PtcpPacket
retransmit now [] = ([], [])
retransmit now (t ∷ window) =
    let (window', due) = retransmit now window in
    if is_due now t
    then (record t { last_sent = now; retries = t.retries + 1 } ∷ window', t.packet ∷ due)
    else (t ∷ window', due)

unfoldable pub due_retransmissions : ℕ → PtcpSession → PtcpSession × List PtcpPacket
due_retransmissions now s =
    let (window, due) = retransmit now s.sent_window in (record s { sent_window = window }, due)
