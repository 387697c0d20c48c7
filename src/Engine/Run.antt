-- ===== src/Engine/Run.antt =====
-- The tasks of the engine take turns in any order: `dh_reader`, `dh_writer` and the retransmission
-- task, each from one of its locks to the next.
pub mod Inbound
pub mod Flow
pub mod Serves
pub mod Clients
use dahua_p2p_bridge.Common.{ℕ, Option, none, some, List, [], ◌∷◌, ◌++◌, map}
use dahua_p2p_bridge.Ptcp.Wire.{PtcpPacket}
use dahua_p2p_bridge.Engine.{PtcpEvent, Engine, dh_reader_at, dh_writer_round, retransmit_round}

-- The turns: `dh_reader` goes on, `dh_writer` has received an event, or the 100 milliseconds of the
-- retransmission task are over.
pub data Turn : Type 0 where
  reads : ℕ → Turn
  writes : ℕ → PtcpEvent → Turn
  resends : ℕ → ℕ → Turn

-- One turn, and the packets that go to `ptcp_request`; none where the engine exits.
unfoldable pub turn : Engine → Turn → Option (Engine × List PtcpPacket)
turn e (reads now) = some (dh_reader_at now e.shared e.inbox e.reader)
turn e (writes now event) =
    let (shared, p) = dh_writer_round now e.shared event in
    some (record e { shared = shared }, p ∷ [])
turn e (resends due_at tested_at) = elim (retransmit_round due_at tested_at e.shared) [
  | none ↦ none
  | some (shared, packets) ↦ some (record e { shared = shared }, packets)
]

-- What a run leaves, at its end or where the engine exits, and all that it sent.
unfoldable pub run : Engine → List Turn → Engine × List PtcpPacket
run e [] = (e, [])
run e (t ∷ turns) = elim (turn e t) [
  | none ↦ (e, [])
  | some (e', sent) ↦ let (e'', more) = run e' turns in (e'', sent ++ more)
]
