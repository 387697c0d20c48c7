-- ===== src/Ptcp.antt =====
-- rust-engine/src/ptcp.rs: the packets and the session of the PTCP protocol.
pub mod Wire
pub mod Sequence
pub mod Session
pub mod Receive
pub mod Retransmit
pub mod Stream
pub mod Transfer
pub mod Outgoing
pub mod Socket
pub mod Print
pub mod Invariant
pub mod Tests
