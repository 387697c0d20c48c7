-- ===== src/Http.antt =====
-- The HTTP part of rust-engine/src/process.rs: when a message is complete, and how a response of the
-- camera is rewritten for the client.
pub mod Splice
pub mod Authority
pub mod Message
pub mod Response
pub mod Redact
mod Tests
use dahua_p2p_bridge.Common.{ℕ, List}

-- `HttpRewriteConfig`
pub record HttpRewriteConfig : Type 0 where
  pub host : List ℕ
  pub onvif_port : ℕ
  pub rtsp_port : ℕ
