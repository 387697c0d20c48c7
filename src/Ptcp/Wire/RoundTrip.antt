-- ===== src/Ptcp/Wire/RoundTrip.antt =====
-- `parse` after `serialize`, and what `len` counts.
use Prim.Native.Nat.{bit_or}
use dahua_p2p_bridge.Common.{
  ℕ, ◌+◌, ◌%◌, ◌/◌, ◌^◌, ◌≤◌, ◌<◌, ◌≡◌, ◌≢◌, refl, true, List, [], ◌∷◌, length, arith, ok,
}
use dahua_p2p_bridge.Common.Words.{IsU32, as_u32, from_be_bytes}
use dahua_p2p_bridge.Common.Bits.{bit_and_low, bit_or_add}
use dahua_p2p_bridge.Utf8.{is_utf8, from_utf8_lossy-is_utf8}
use dahua_p2p_bridge.Ptcp.Wire.{
  PtcpPayload, PtcpBody, PtcpPacket, sync, command, payload, bind, status, heartbeat, empty,
  parse_payload, serialize_payload, parse_payload_arm, parse_bind_arm, parse_status_arm, parse_body,
  serialize_body, len, parse_packet, serialize_packet,
}

-- `len` is the number of bytes that `serialize` writes, whatever the body.
len-length-serialize_body : (body : PtcpBody) → length (serialize_body body) ≡ len body
unfolding len serialize_body
len-length-serialize_body sync = refl
len-length-serialize_body (command bytes) = refl
len-length-serialize_body (payload p) = omega arith
len-length-serialize_body (bind realm port) = refl
len-length-serialize_body (status realm text) = omega arith
len-length-serialize_body heartbeat = refl
len-length-serialize_body empty = refl

-- The header word of a payload: the type 0x10 on top, the length in the low half.
header_word : (n : ℕ) → n < 2 ^ 16 → bit_or 0x10000000 (as_u32 n) ≡ 0x10000000 + n
header_word n h = ground (arith, bit_or_add 28 1 n)

-- `parse` reads back a payload of at most 65535 bytes.
pub parse_payload-serialize_payload :
    (p : PtcpPayload)
    → IsU32 p.realm
    → length p.bytes < 2 ^ 16
    → parse_payload (serialize_payload p) ≡ ok p
unfolding parse_payload serialize_payload
parse_payload-serialize_payload p hr hl =
    let n = length p.bytes in
    rw (header_word n hl) (
      ground (
        arith,
        bit_and_low 16 (
            from_be_bytes ((0x10000000 + n) / 2 ^ 24 % 256) ((0x10000000 + n) / 2 ^ 16 % 256)
              ((0x10000000 + n) / 2 ^ 8 % 256) ((0x10000000 + n) % 256)),
      ))

-- A command that `parse` does not take for another body: four bytes or more, the first no tag.
abbrev pub IsCommand : List ℕ → Type 0
IsCommand [] = ⊥
IsCommand (tag ∷ rest) =
    (3 ≤ length rest) × (tag ≢ 0x00) × (tag ≢ 0x10) × (tag ≢ 0x11) × (tag ≢ 0x12) × (tag ≢ 0x13)

-- The bodies that survive the wire.
abbrev pub IsWireBody : PtcpBody → Type 0
IsWireBody sync = Unit {0}
IsWireBody (command bytes) = IsCommand bytes
IsWireBody (payload p) = IsU32 p.realm × (length p.bytes < 2 ^ 16)
IsWireBody (bind realm port) = IsU32 realm × IsU32 port
IsWireBody (status realm text) = IsU32 realm × (is_utf8 text ≡ true)
IsWireBody heartbeat = Unit {0}
IsWireBody empty = Unit {0}

parse_body-command : (bytes : List ℕ) → IsCommand bytes → parse_body bytes ≡ ok (command bytes)
unfolding parse_body
parse_body-command [] h = absurd h
parse_body-command (tag ∷ rest) h = ground arith

parse_body-payload :
    (p : PtcpPayload)
    → IsU32 p.realm
    → length p.bytes < 2 ^ 16
    → parse_body (serialize_payload p) ≡ ok (payload p)
unfolding serialize_payload parse_body parse_payload_arm
parse_body-payload p hr hl =
    ground (arith, header_word (length p.bytes) hl, parse_payload-serialize_payload p hr hl)

-- `parse` reads back every such body.
pub parse_body-serialize_body :
    (body : PtcpBody) → IsWireBody body → parse_body (serialize_body body) ≡ ok body
unfolding parse_body serialize_body parse_bind_arm parse_status_arm
parse_body-serialize_body sync h = refl
parse_body-serialize_body (command bytes) h = parse_body-command bytes h
parse_body-serialize_body (payload p) h = parse_body-payload p h.0 h.1
parse_body-serialize_body (bind realm port) h = ground arith
parse_body-serialize_body (status realm text) h = ground (arith, from_utf8_lossy-is_utf8 text)
parse_body-serialize_body heartbeat h = refl
parse_body-serialize_body empty h = refl

pub record IsWirePacket (p : PtcpPacket) : Type 0 where
  pub sent_fits : IsU32 p.sent
  pub recv_fits : IsU32 p.recv
  pub pid_fits : IsU32 p.pid
  pub lmid_fits : IsU32 p.lmid
  pub rmid_fits : IsU32 p.rmid
  pub body_fits : IsWireBody p.body

-- `parse` reads back every packet whose counters are u32 and whose body survives the wire.
pub parse_packet-serialize_packet :
    (p : PtcpPacket) → IsWirePacket p → parse_packet (serialize_packet p) ≡ ok p
unfolding parse_packet serialize_packet
parse_packet-serialize_packet p w = ground (arith, parse_body-serialize_body p.body w.body_fits)
