-- ===== src/Ptcp/Socket/Exchange.antt =====
-- A packet over two sockets: `ptcp_request` at one end, `ptcp_read` at the other.
use dahua_p2p_bridge.Common.{ℕ, ◌<◌, ◌≡◌, ap, ◌∙◌, Option, some, List, ◌∷◌, ◌++◌, All, Result, ok}
use dahua_p2p_bridge.Ptcp.Wire.{PtcpPacket, serialize_packet}
use dahua_p2p_bridge.Ptcp.Wire.RoundTrip.{IsWirePacket, parse_packet-serialize_packet}
use dahua_p2p_bridge.Settings.{idle_reconnect_seconds}
use dahua_p2p_bridge.Ptcp.Socket.{
  SendResult, accepted, refusals, ReadResult, datagram, IsBorne, Ending, returned, ptcp_request,
  ptcp_read, received, read_datagram-IsBorne, read_datagram, ptcp_request_course,
}

-- A packet that fits the wire and that `ptcp_request` sends with less than four refusals is what
-- `ptcp_read` returns when its datagram arrives, after any silence and refusals that the read bears
-- with, whatever the two ends log.
pub ptcp_request-ptcp_read :
    (debug debug' idle : Option (List ℕ)) (address address' : List ℕ) (p : PtcpPacket)
    (k elapsed : ℕ) (later : List SendResult) (before after : List (ℕ × ReadResult))
    → IsWirePacket p
    → k < 4
    → All (IsBorne (idle_reconnect_seconds idle)) before
    → (bytes : List ℕ) × ((ptcp_request debug (some address) p (refusals k ++ (accepted ∷ later))).0
        ≡ returned bytes)
      × ((ptcp_read debug' idle (some address') (before ++ ((elapsed, datagram bytes) ∷ after))).0
          ≡ returned (ok p))
unfolding ptcp_read received read_datagram
ptcp_request-ptcp_read debug debug' idle address address' p k elapsed later before after fits few
      borne =
    (
      serialize_packet p,
      (ptcp_request_course debug address p k later).0 few,
      ap (λ e. (received debug' address' e).0)
            (read_datagram-IsBorne (idle_reconnect_seconds idle) before _ borne)
          ∙ ap {B = Ending (Result PtcpPacket)} returned (parse_packet-serialize_packet p fits),
    )
