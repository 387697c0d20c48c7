-- ===== src/Ptcp/Receive/Cases.antt =====
-- The ways through `recv`.
use dahua_p2p_bridge.Common.{
  ◌≡◌, ◌≢◌, true, false, Bool-cases, inl, inr, List, [], ◌==◌, arith, ==→eq,
}
use dahua_p2p_bridge.Common.HashMap.{contains_key, insert}
use dahua_p2p_bridge.Ptcp.Wire.{PtcpPacket, len}
use dahua_p2p_bridge.Ptcp.Sequence.{sequence_after}
use dahua_p2p_bridge.Ptcp.Session.{PtcpSession, packet_end}
use dahua_p2p_bridge.Ptcp.Receive.{
  Readings, recv, note_header, recv_beyond_gap, drain_contiguous, skips_gap, store_beyond_gap,
}

-- Why a packet is put aside: it has no bytes, its bytes are old, or it waits already.
pub data IsSetAside (s : PtcpSession) (p : PtcpPacket) : Type 0 where
  no_bytes : len p.body ≡ 0 → IsSetAside s p
  stale : p.sent ≢ s.recv → sequence_after p.sent s.recv ≡ false → IsSetAside s p
  old : sequence_after (packet_end p) s.recv ≡ false → IsSetAside s p
  waits_already : contains_key p.sent s.pending ≡ true → IsSetAside s p

abbrev pub stored_at_front : PtcpSession → PtcpPacket → PtcpSession
stored_at_front s p = record s { pending = insert p.sent p s.pending }

-- Whatever `P` holds of the three outcomes holds of `recv`.
pub recv_cases {ℓ} :
    (P : PtcpSession × List PtcpPacket → Type ℓ) (r : Readings) (s : PtcpSession) (p : PtcpPacket)
    → (IsSetAside s p → P (note_header s p, []))
    → (len p.body ≢ 0
        → p.sent ≡ s.recv
        → P (drain_contiguous r.drained (stored_at_front (note_header s p) p)))
    → (len p.body ≢ 0
        → p.sent ≢ s.recv
        → sequence_after p.sent s.recv ≡ true
        → contains_key p.sent s.pending ≡ false
        → P (recv_beyond_gap r (note_header s p) p))
    → P (recv r s p)
unfolding recv note_header
recv_cases P r s p aside front beyond = elim (Bool-cases (len p.body == 0)) [
  | inl bare ↦ rw bare (aside (no_bytes (==→eq _ _ bare)))
  | inr full ↦ elim (Bool-cases (p.sent == s.recv)) [
    | inl at ↦ elim (Bool-cases (sequence_after (packet_end p) s.recv)) [
      | inl new ↦ rw (full, at, new) (front (ground arith) (==→eq _ _ at))
      | inr past ↦ rw (full, at, past) (aside (old past))
    ]
    | inr off ↦ elim (Bool-cases (sequence_after p.sent s.recv)) [
      | inr before ↦ rw (full, off, before) (aside (stale (ground arith) before))
      | inl after ↦ elim (Bool-cases (sequence_after (packet_end p) s.recv)) [
        | inr past ↦ rw (full, off, after, past) (aside (old past))
        | inl new ↦ elim (Bool-cases (contains_key p.sent s.pending)) [
          | inl waits ↦ rw (full, off, after, new, waits) (aside (waits_already waits))
          | inr fresh ↦
              rw (full, off, after, new, fresh) (beyond (ground arith) (ground arith) after fresh)
        ]
      ]
    ]
  ]
]

-- Without permission to skip, a packet beyond the gap is stored and nothing is delivered.
pub recv_beyond_gap_strict :
    (r : Readings) (s : PtcpSession) (p : PtcpPacket)
    → s.allow_gap_skip ≡ false
    → recv_beyond_gap r s p ≡ (store_beyond_gap r s p, [])
unfolding recv_beyond_gap skips_gap store_beyond_gap
recv_beyond_gap_strict r s p strict = rw strict
