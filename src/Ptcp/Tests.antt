-- ===== src/Ptcp/Tests.antt =====
-- The unit tests of rust-engine/src/ptcp.rs, run on the model, and each theorem of this part at a
-- concrete input.
mod Wire
mod Session
mod Receive
mod Socket
mod Print
