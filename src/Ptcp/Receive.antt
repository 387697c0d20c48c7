-- ===== src/Ptcp/Receive.antt =====
-- `PTCPSession::recv` and `drain_contiguous` of rust-engine/src/ptcp.rs: packets are delivered in the
-- order of their bytes, and wait in `pending` while bytes before them are missing.
pub mod Drain
pub mod OnStream
pub mod Cases
pub mod Progress
pub mod Kept
pub mod Strict
pub mod Skip
pub mod Order
pub mod Video
use Prim.Native.Nat.{bit_and}
use dahua_p2p_bridge.Common.{
  ℕ, zero, suc, ◌+◌, ◌-◌, Bool, true, false, not, ◌&&◌, ◌||◌, Option, none, some, List, [], ◌∷◌,
  leb, ltb, ◌==◌, if◌then◌else◌, length, any,
}
use dahua_p2p_bridge.Common.Words.{as_u32, wrapping_add, wrapping_sub}
use dahua_p2p_bridge.Common.HashMap.{HashMap, lookup, contains_key, remove, insert}
use dahua_p2p_bridge.Ptcp.Wire.{PtcpBody, PtcpPacket, payload, len}
use dahua_p2p_bridge.Ptcp.Sequence.{sequence_after}
use dahua_p2p_bridge.Ptcp.Session.{PtcpSession, packet_end, acknowledge_sent, gap_packet_limit}

-- What the loop of `drain_contiguous` leaves: the receive offset, the packets still pending, and
-- those that are ready, oldest first.
pub record Drained : Type 0 where
  pub recv : ℕ
  pub pending : HashMap PtcpPacket
  pub ready : List PtcpPacket

unfoldable pub drain_loop : ℕ → ℕ → HashMap PtcpPacket → Drained
drain_loop zero recv pending = record { recv = recv; pending = pending; ready = [] }
drain_loop (suc fuel) recv pending = elim (lookup recv pending) [
  | none ↦ record { recv = recv; pending = pending; ready = [] }
  | some packet ↦
      let d =
        drain_loop fuel (wrapping_add recv (as_u32 (len packet.body))) (remove recv pending) in
      record { recv = d.recv; pending = d.pending; ready = packet ∷ d.ready }
]

abbrev pub is_empty {ℓ} : {A : Type ℓ} → List A → Bool
is_empty [] = true
is_empty (x ∷ xs) = false

-- Each round takes an entry out of `pending`, so its length is enough fuel.
unfoldable pub drain_contiguous : ℕ → PtcpSession → PtcpSession × List PtcpPacket
drain_contiguous now s =
    let d = drain_loop (length s.pending) s.recv s.pending in
    let still = not (is_empty d.pending) in
    (
      record s {
        recv = d.recv;
        pending = d.pending;
        last_progress = if is_empty d.ready then s.last_progress else now;
        gap_packets = if still then 1 else 0;
        gap_since = if still then s.gap_since else none;
      },
      d.ready,
    )

-- What a call of `recv` reads of its surroundings: `gap_timeout()`, and the clock where the gap
-- opens, where its age is tested, and where packets are drained.
pub record Readings : Type 0 where
  pub gap_timeout : ℕ
  pub gap_opened : ℕ
  pub gap_tested : ℕ
  pub drained : ℕ

abbrev pub is_payload : PtcpBody → Bool
is_payload (payload p) = true
is_payload _ = false

abbrev pub is_recovery_command : PtcpPacket → Bool
is_recovery_command p = bit_and p.pid 0xff00_0000 == 0x0100_0000

-- The key nearest ahead of `recv`: `filter` and `min_by_key` over the keys.
abbrev pub nearer : ℕ → ℕ → Option ℕ → Option ℕ
nearer recv k none = some k
nearer recv k (some j) = if ltb (wrapping_sub j recv) (wrapping_sub k recv) then some j else some k

unfoldable pub next_start : ℕ → HashMap PtcpPacket → Option ℕ
next_start recv [] = none
next_start recv ((k, p) ∷ m) =
    let rest = next_start recv m in if sequence_after k recv then nearer recv k rest else rest

abbrev pub gap_expired : Readings → Option ℕ → Bool
gap_expired r none = false
gap_expired r (some started) = leb r.gap_timeout (r.gap_tested - started)

-- A packet beyond the gap has been stored in `s`: whether the gap is given up.
unfoldable pub skips_gap : Readings → PtcpSession → PtcpPacket → Bool
skips_gap r s packet =
    let video_pending = any (λ e. is_payload (e.1).body) s.pending in
    let safe_to_skip = not (is_payload packet.body) && not video_pending in
    let expired = gap_expired r s.gap_since in
    s.allow_gap_skip
    && (safe_to_skip || expired)
    && (is_recovery_command packet || leb gap_packet_limit s.gap_packets || expired)

abbrev pub get_or_insert : Option ℕ → ℕ → Option ℕ
get_or_insert none now = some now
get_or_insert (some t) now = some t

-- The part of `recv` for a packet beyond the gap that is not pending yet.
unfoldable pub store_beyond_gap : Readings → PtcpSession → PtcpPacket → PtcpSession
store_beyond_gap r s packet = record s {
  pending = insert packet.sent packet s.pending;
  gap_packets = s.gap_packets + 1;
  gap_since = get_or_insert s.gap_since r.gap_opened;
}

unfoldable pub skip_to : Readings → PtcpSession → Option ℕ → PtcpSession × List PtcpPacket
skip_to r s none = (s, [])
skip_to r s (some start) = drain_contiguous r.drained (record s { recv = start })

unfoldable pub recv_beyond_gap : Readings → PtcpSession → PtcpPacket → PtcpSession × List PtcpPacket
recv_beyond_gap r s packet =
    let stored = store_beyond_gap r s packet in
    if skips_gap r stored packet
    then skip_to r stored (next_start stored.recv stored.pending)
    else (stored, [])

-- What every packet does first: the peer's message id and its acknowledgement.
unfoldable pub note_header : PtcpSession → PtcpPacket → PtcpSession
unfolding acknowledge_sent
note_header s packet = acknowledge_sent (record s { rmid = packet.lmid }) packet.recv

unfoldable pub recv : Readings → PtcpSession → PtcpPacket → PtcpSession × List PtcpPacket
recv r s0 packet =
    let s = note_header s0 packet in
    let start = packet.sent in
    if len packet.body == 0
    then (s, [])
    else if not (start == s.recv) && not (sequence_after start s.recv)
    then (s, [])
    else if not (sequence_after (packet_end packet) s.recv)
    then (s, [])
    else if start == s.recv
    then drain_contiguous r.drained (record s { pending = insert start packet s.pending })
    else if contains_key start s.pending
    then (s, [])
    else recv_beyond_gap r s packet
