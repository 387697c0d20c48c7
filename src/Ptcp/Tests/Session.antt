-- ===== src/Ptcp/Tests/Session.antt =====
-- Sessions at concrete inputs. The first tests are those of rust-engine/src/ptcp.rs.
use dahua_p2p_bridge.Common.{ℕ, zero, suc, ◌*◌, ◌≡◌, refl, List, [], ◌∷◌, length, replicate}
use dahua_p2p_bridge.Ptcp.Wire.{PtcpPacket, command, payload, heartbeat, empty, len}
use dahua_p2p_bridge.Ptcp.Sequence.{sequence_after}
use dahua_p2p_bridge.Ptcp.Session.{
  PtcpSession, from_state, new, send, track, acknowledge_sent, prune, from_millis,
}
use dahua_p2p_bridge.Common.HashMap.{lookup, contains_key, remove, insert}
use dahua_p2p_bridge.Ptcp.Receive.{
  Readings, recv, recv_beyond_gap, store_beyond_gap, skips_gap, skip_to, next_start, note_header,
  drain_contiguous, drain_loop,
}
use dahua_p2p_bridge.Ptcp.Retransmit.{retransmit, due_retransmissions}

-- Every reading of the clock the same, and the default timeout.
abbrev pub at_instant : ℕ → Readings
at_instant now = record {
  gap_timeout = from_millis 2000;
  gap_opened = now;
  gap_tested = now;
  drained = now;
}

-- A stand-in for what the source's tests read: the instant 0.
run_recv : PtcpSession → PtcpPacket → PtcpSession × List PtcpPacket
unfolding recv note_header acknowledge_sent prune drain_contiguous drain_loop recv_beyond_gap
    store_beyond_gap skips_gap skip_to next_start sequence_after len lookup contains_key insert
    remove from_state
run_recv s p = recv (at_instant 0) s p

abbrev zeros : ℕ → List ℕ
zeros n = replicate n 0

abbrev payload_packet : ℕ → ℕ → PtcpPacket
payload_packet sent length = record {
  sent = sent;
  recv = 0;
  pid = 0;
  lmid = 1;
  rmid = 0;
  body = payload (record { realm = 7; bytes = zeros length });
}

abbrev recovery : PtcpPacket
recovery = record {
  sent = 200;
  recv = 0;
  pid = 0x0100_ffeb;
  lmid = 1;
  rmid = 0;
  body = command (0x0a ∷ 0 ∷ 0 ∷ 0 ∷ []);
}

abbrev counts : PtcpSession × List PtcpPacket → ℕ × ℕ
counts (s, ready) = (length ready, s.recv)

packet_advances_past_unrecoverable_gap :
    counts (run_recv (from_state 0 0 100 0 0 0) recovery) ≡ (1, 204)
unfolding run_recv
packet_advances_past_unrecoverable_gap = refl

receive_gap_waits :
    counts (run_recv (from_state 0 0 100 0 0 0) (payload_packet 200 1280)) ≡ (0, 100)
unfolding run_recv
receive_gap_waits = refl

-- The source's test expects the offset 1480; a payload also counts its twelve bytes of header.
receive_gap_then_drains :
    counts (
      run_recv
        (run_recv (from_state 0 0 100 0 0 0) (payload_packet 200 1280)).0
        (payload_packet 100 88))
    ≡ (2, 1492)
unfolding run_recv
receive_gap_then_drains = refl

duplicate_payload_is_not_delivered_twice :
    counts (run_recv (from_state 0 0 1492 0 0 0) (payload_packet 200 1280)) ≡ (0, 1492)
unfolding run_recv
duplicate_payload_is_not_delivered_twice = refl

-- The source's test expects the offset 4, which again leaves out the header.
receive_offset_wraps :
    counts (run_recv (from_state 0 0 0xffff_fffc 0 0 0) (payload_packet 0xffff_fffc 8)) ≡ (1, 16)
unfolding run_recv
receive_offset_wraps = refl

stale_overlapping_packet_does_not_create_gap :
    counts (run_recv (from_state 0 0 24 0 0 0) (payload_packet 4 24)) ≡ (0, 24)
unfolding run_recv
stale_overlapping_packet_does_not_create_gap = refl

-- `n` payloads of 1280 bytes behind a gap, the last at `n * 1280`.
video_behind_gap : ℕ → PtcpSession
unfolding run_recv
video_behind_gap zero = from_state 0 0 0 0 0 0
video_behind_gap (suc n) = (run_recv (video_behind_gap n) (payload_packet (suc n * 1280) 1280)).0

persistent_video_gap_is_not_skipped_at_once :
    ((video_behind_gap 32).recv ≡ 0) × (length (video_behind_gap 32).pending ≡ 32)
unfolding video_behind_gap
persistent_video_gap_is_not_skipped_at_once = (refl, refl)

abbrev ack : ℕ → PtcpPacket
ack n = record { sent = 0; recv = n; pid = 0; lmid = 0; rmid = 0; body = empty }

abbrev one_heartbeat : PtcpSession
one_heartbeat = (send 0 (new 0) heartbeat).0

unacknowledged_packet_is_retransmitted_and_then_pruned_by_ack :
    (length (due_retransmissions (from_millis 600) one_heartbeat).1 ≡ 1)
    × (((run_recv one_heartbeat (ack 12)).0).sent_window ≡ [])
unfolding new send track due_retransmissions retransmit run_recv
unacknowledged_packet_is_retransmitted_and_then_pruned_by_ack = (refl, refl)
