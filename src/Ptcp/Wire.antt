-- ===== src/Ptcp/Wire.antt =====
-- The packets of rust-engine/src/ptcp.rs and their bytes: `PTCPPayload`, `PTCPBody`, `PTCPPacket`
-- with `parse`, `serialize` and `len`. A byte is a number below 256, a `&[u8]`, a `Vec<u8>` or a
-- `String` a list of bytes. A failed assertion, an index or a slice out of range is a `panic`.
pub mod RoundTrip
use Prim.Native.Nat.{bit_and, bit_or}
use dahua_p2p_bridge.Common.{
  ℕ, ◌+◌, Bool, true, false, ◌&&◌, List, [], ◌∷◌, ◌++◌, none, some, leb, ◌==◌, if◌then◌else◌,
  length, get_elem?, take, drop, invalid_payload, invalid_header, invalid_padding, invalid_length,
  invalid_body, invalid_packet, invalid_magic, out_of_bounds, Result, ok, panic, ◌>>=◌, ◌>>◌,
  assert,
}
use dahua_p2p_bridge.Common.Words.{as_u32, to_be_bytes, from_be_bytes}
use dahua_p2p_bridge.Utf8.{from_utf8_lossy}

pub record PtcpPayload : Type 0 where
  pub realm : ℕ
  pub bytes : List ℕ

pub data PtcpBody : Type 0 where
  sync : PtcpBody
  command : List ℕ → PtcpBody
  payload : PtcpPayload → PtcpBody
  bind : ℕ → ℕ → PtcpBody
  status : ℕ → List ℕ → PtcpBody
  heartbeat : PtcpBody
  empty : PtcpBody

pub record PtcpPacket : Type 0 where
  pub sent : ℕ
  pub recv : ℕ
  pub pid : ℕ
  pub lmid : ℕ
  pub rmid : ℕ
  pub body : PtcpBody

-- `data[i]`
abbrev pub byte_at : List ℕ → ℕ → Result ℕ
byte_at bytes i = elim (get_elem? bytes i) [ none ↦ panic out_of_bounds | some b ↦ ok b ]

-- `&data[i..]`
abbrev pub slice_from : List ℕ → ℕ → Result (List ℕ)
slice_from bytes i = if leb i (length bytes) then ok (drop i bytes) else panic out_of_bounds

-- `u32::from_be_bytes([data[i], data[i + 1], data[i + 2], data[i + 3]])`
abbrev pub u32_at : List ℕ → ℕ → Result ℕ
u32_at bytes i = do
  a ← byte_at bytes i
  b ← byte_at bytes (i + 1)
  c ← byte_at bytes (i + 2)
  d ← byte_at bytes (i + 3)
  ok (from_be_bytes a b c d)

-- Whether two byte strings are the same.
abbrev pub bytes_eq : List ℕ → List ℕ → Bool
bytes_eq [] [] = true
bytes_eq [] (y ∷ ys) = false
bytes_eq (x ∷ xs) [] = false
bytes_eq (x ∷ xs) (y ∷ ys) = x == y && bytes_eq xs ys

unfoldable pub parse_payload : List ℕ → Result PtcpPayload
parse_payload bytes = do
  assert (leb 12 (length bytes)) invalid_payload
  first ← byte_at bytes 0
  assert (first == 0x10) invalid_header
  header ← u32_at bytes 0
  let len = bit_and header 0xffff
  realm ← u32_at bytes 4
  padding ← u32_at bytes 8
  rest ← slice_from bytes 12
  assert (padding == 0) invalid_padding
  assert (len == as_u32 (length rest)) invalid_length
  ok (record { realm = realm; bytes = rest })

unfoldable pub serialize_payload : PtcpPayload → List ℕ
serialize_payload p =
    let header = bit_or 0x10000000 (as_u32 (length p.bytes)) in
    to_be_bytes header ++ to_be_bytes p.realm ++ to_be_bytes 0 ++ p.bytes

-- The arms of the match on `data[0]` that read more than the tag.
unfoldable pub parse_payload_arm : List ℕ → Result PtcpBody
parse_payload_arm bytes = do p ← parse_payload bytes; ok (payload p)

unfoldable pub parse_bind_arm : List ℕ → Result PtcpBody
parse_bind_arm bytes = do realm ← u32_at bytes 4; port ← u32_at bytes 12; ok (bind realm port)

unfoldable pub parse_status_arm : List ℕ → Result PtcpBody
parse_status_arm bytes = do
  realm ← u32_at bytes 4
  rest ← slice_from bytes 12
  ok (status realm (from_utf8_lossy rest))

unfoldable pub parse_tagged : ℕ → List ℕ → Result PtcpBody
parse_tagged tag bytes =
    if tag == 0x00
    then ok sync
    else if tag == 0x10
    then parse_payload_arm bytes
    else if tag == 0x11
    then parse_bind_arm bytes
    else if tag == 0x12
    then parse_status_arm bytes
    else if tag == 0x13
    then ok heartbeat
    else ok (command bytes)

unfoldable pub parse_body : List ℕ → Result PtcpBody
unfolding parse_tagged
parse_body bytes = if length bytes == 0 then ok empty else do
  assert (leb 4 (length bytes)) invalid_body
  tag ← byte_at bytes 0
  parse_tagged tag bytes

unfoldable pub serialize_body : PtcpBody → List ℕ
unfolding serialize_payload
serialize_body sync = 0x00 ∷ 0x03 ∷ 0x01 ∷ 0x00 ∷ []
serialize_body (command bytes) = bytes
serialize_body (payload p) = serialize_payload p
serialize_body (bind realm port) =
    (0x11 ∷ 0x00 ∷ 0x00 ∷ 0x00 ∷ [])
    ++ to_be_bytes realm
    ++ (0x00 ∷ 0x00 ∷ 0x00 ∷ 0x00 ∷ [])
    ++ to_be_bytes port
    ++ (0x7f ∷ 0x00 ∷ 0x00 ∷ 0x01 ∷ [])
serialize_body (status realm text) =
    (0x12 ∷ 0x00 ∷ 0x00 ∷ 0x00 ∷ [])
    ++ to_be_bytes realm
    ++ (0x00 ∷ 0x00 ∷ 0x00 ∷ 0x00 ∷ [])
    ++ text
serialize_body heartbeat =
    0x13 ∷ 0x00 ∷ 0x00 ∷ 0x00 ∷ 0x00 ∷ 0x00 ∷ 0x00 ∷ 0x00 ∷ 0x00 ∷ 0x00 ∷ 0x00 ∷ 0x00 ∷ []
serialize_body empty = []

-- `PTCPBody::len`
unfoldable pub len : PtcpBody → ℕ
len sync = 4
len (command bytes) = length bytes
len (payload p) = length p.bytes + 12
len (bind realm port) = 20
len (status realm text) = length text + 12
len heartbeat = 12
len empty = 0

abbrev pub magic : List ℕ
magic = b'P' ∷ b'T' ∷ b'C' ∷ b'P' ∷ []

unfoldable pub parse_packet : List ℕ → Result PtcpPacket
parse_packet bytes = do
  assert (leb 24 (length bytes)) invalid_packet
  assert (bytes_eq (take 4 bytes) magic) invalid_magic
  sent ← u32_at bytes 4
  recv ← u32_at bytes 8
  pid ← u32_at bytes 12
  lmid ← u32_at bytes 16
  rmid ← u32_at bytes 20
  rest ← slice_from bytes 24
  body ← parse_body rest
  ok (record { sent = sent; recv = recv; pid = pid; lmid = lmid; rmid = rmid; body = body })

unfoldable pub serialize_packet : PtcpPacket → List ℕ
serialize_packet p =
    magic
    ++ to_be_bytes p.sent
    ++ to_be_bytes p.recv
    ++ to_be_bytes p.pid
    ++ to_be_bytes p.lmid
    ++ to_be_bytes p.rmid
    ++ serialize_body p.body
