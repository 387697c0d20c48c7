-- ===== src/Ptcp/Tests/Socket.antt =====
-- The theorems about the socket at concrete inputs.
use dahua_p2p_bridge.Common.{
  ℕ, ◌<◌, ◌≤◌, ◌≡◌, inl, inr, refl, none, some, ok, List, [], ◌∷◌, ◌++◌, arith,
}
use dahua_p2p_bridge.Ptcp.Wire.{PtcpPacket, heartbeat, serialize_packet}
use dahua_p2p_bridge.Bytes.{codes}
use dahua_p2p_bridge.Settings.{idle_reconnect_seconds}
use dahua_p2p_bridge.Ptcp.Wire.RoundTrip.{IsWirePacket}
use dahua_p2p_bridge.Ptcp.Socket.Exchange.{ptcp_request-ptcp_read}
use dahua_p2p_bridge.Ptcp.Session.{from_secs}
use dahua_p2p_bridge.Ptcp.Socket.{
  accepted, failed, returned, exited, ptcp_request, ptcp_read, refusals, ptcp_request_course,
  ReadResult, datagram, timed_out, read_refused, read_failed, read_datagram, read_datagram_course,
}

abbrev beat : PtcpPacket
beat = record { sent = 0; recv = 0; pid = 0xffff; lmid = 0; rmid = 0; body = heartbeat }

abbrev address : List ℕ
address = codes "10.0.0.1:8800"

ptcp_request_course_example :
    (2 < 4
      → (ptcp_request none (some address) beat (refusals 2 ++ (accepted ∷ []))).0
        ≡ returned (serialize_packet beat))
    × (2 < 4 → (ptcp_request none (some address) beat (refusals 2 ++ (failed ∷ []))).0 ≡ exited 75)
    × (4 ≤ 2 → (ptcp_request none (some address) beat (refusals 2 ++ [])).0 ≡ exited 75)
    × (ptcp_request none none beat [] ≡ (exited 75, []))
ptcp_request_course_example = ptcp_request_course none address beat 2 []

-- A refusal after one second and silence until the 16th, under a limit of 30 seconds.
abbrev quiet : List (ℕ × ReadResult)
quiet = (from_secs 1, read_refused) ∷ (from_secs 16, timed_out) ∷ []

read_datagram_course_example :
    (read_datagram 30 (quiet ++ ((from_secs 31, datagram (1 ∷ [])) ∷ [])) ≡ returned (1 ∷ []))
    × (0 < 30
        → from_secs 30 ≤ from_secs 31
        → read_datagram 30 (quiet ++ ((from_secs 31, timed_out) ∷ [])) ≡ exited 75)
    × (from_secs 15 ≤ from_secs 31
        → read_datagram 30 (quiet ++ ((from_secs 31, read_refused) ∷ [])) ≡ exited 75)
    × (read_datagram 30 (quiet ++ ((from_secs 31, read_failed) ∷ [])) ≡ exited 75)
read_datagram_course_example =
    read_datagram_course 30 (from_secs 31) (1 ∷ []) quiet [] (omega arith, (inr (omega arith), tt))

beat-IsWirePacket : IsWirePacket beat
beat-IsWirePacket = record {
  sent_fits = omega arith;
  recv_fits = omega arith;
  pid_fits = omega arith;
  lmid_fits = omega arith;
  rmid_fits = omega arith;
  body_fits = tt;
}

-- The receiver logs all packets, and has no limit to silence.
ptcp_request-ptcp_read_example :
    (bytes : List ℕ) × ((ptcp_request none (some address) beat (refusals 3 ++ (accepted ∷ []))).0
      ≡ returned bytes)
    × ((ptcp_read
          (some (codes "1"))
          none
          (some address)
          ((from_secs 15, timed_out) ∷ (from_secs 16, datagram bytes) ∷ [])).0
        ≡ returned (ok beat))
ptcp_request-ptcp_read_example =
    ptcp_request-ptcp_read none (some (codes "1")) none address address beat 3 (from_secs 16) []
      ((from_secs 15, timed_out) ∷ []) [] beat-IsWirePacket (omega arith)
      (inl (unfold idle_reconnect_seconds in refl), tt)
