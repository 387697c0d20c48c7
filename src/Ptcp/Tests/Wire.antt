-- ===== src/Ptcp/Tests/Wire.antt =====
-- Packets and their bytes at concrete inputs.
use dahua_p2p_bridge.Common.{
  ℕ, ◌≡◌, refl, true, List, [], ◌∷◌, arith, ok, panic, invalid_length, out_of_bounds,
}
use dahua_p2p_bridge.Utf8.{from_utf8_lossy, is_utf8, from_utf8_lossy-is_utf8}
use dahua_p2p_bridge.Ptcp.Wire.{
  PtcpPacket, bind, status, parse_payload, parse_payload_arm, parse_bind_arm, parse_status_arm,
  parse_body, serialize_body, parse_packet, serialize_packet,
}
use dahua_p2p_bridge.Ptcp.Wire.RoundTrip.{IsWirePacket, parse_packet-serialize_packet}
use dahua_p2p_bridge.Ptcp.Sequence.{sequence_after, sequence_after-offset}

abbrev disc : List ℕ
disc = b'D' ∷ b'I' ∷ b'S' ∷ b'C' ∷ []

abbrev disc_packet : PtcpPacket
disc_packet = record {
  sent = 0xffff_fffe;
  recv = 5;
  pid = 0xfffe;
  lmid = 1;
  rmid = 2;
  body = status 7 disc;
}

-- A bind packet on the wire.
bind_bytes :
    serialize_body (bind 0x0102_0304 554)
    ≡ 0x11 ∷ 0 ∷ 0 ∷ 0 ∷ 1 ∷ 2 ∷ 3 ∷ 4 ∷ 0 ∷ 0 ∷ 0 ∷ 0 ∷ 0 ∷ 0 ∷ 2 ∷ 42 ∷ 127 ∷ 0 ∷ 0 ∷ 1 ∷ []
unfolding serialize_body
bind_bytes = refl

-- A bind that is cut short is an index out of range.
bind_short : parse_body (0x11 ∷ 0 ∷ 0 ∷ 0 ∷ 1 ∷ 2 ∷ 3 ∷ 4 ∷ []) ≡ panic out_of_bounds
unfolding parse_body parse_bind_arm
bind_short = refl

payload_wrong_length :
    parse_body (0x10 ∷ 0 ∷ 0 ∷ 9 ∷ 0 ∷ 0 ∷ 0 ∷ 7 ∷ 0 ∷ 0 ∷ 0 ∷ 0 ∷ 1 ∷ []) ≡ panic invalid_length
unfolding parse_body parse_payload_arm parse_payload
payload_wrong_length = refl

packet_runs : parse_packet (serialize_packet disc_packet) ≡ ok disc_packet
unfolding parse_packet serialize_packet parse_body serialize_body parse_status_arm from_utf8_lossy
packet_runs = refl

disc_packet-IsWirePacket : IsWirePacket disc_packet
unfolding is_utf8
disc_packet-IsWirePacket = record {
  sent_fits = omega arith;
  recv_fits = omega arith;
  pid_fits = omega arith;
  lmid_fits = omega arith;
  rmid_fits = omega arith;
  body_fits = (omega arith, refl);
}

parse_packet-serialize_packet_example : parse_packet (serialize_packet disc_packet) ≡ ok disc_packet
parse_packet-serialize_packet_example =
    parse_packet-serialize_packet disc_packet disc_packet-IsWirePacket

-- The euro sign.
euro_sign_is_kept : from_utf8_lossy (0xe2 ∷ 0x82 ∷ 0xac ∷ []) ≡ 0xe2 ∷ 0x82 ∷ 0xac ∷ []
euro_sign_is_kept = from_utf8_lossy-is_utf8 (0xe2 ∷ 0x82 ∷ 0xac ∷ []) well_formed
  where
    well_formed : is_utf8 (0xe2 ∷ 0x82 ∷ 0xac ∷ []) ≡ true
    well_formed = unfold is_utf8 in refl

-- The counter wraps between the two.
sequence_after-offset_example : sequence_after 4 0xffff_fffc ≡ true
sequence_after-offset_example = sequence_after-offset 0xffff_fffc 8 0 (omega arith) (omega arith)
