-- ===== src/Client.antt =====
-- The tasks of one client connection: `process_reader` and `process_writer` of
-- rust-engine/src/process.rs, and `handle_client` of rust-engine/src/main.rs, which starts them.
pub mod Reader
pub mod Upload
pub mod Writer
pub mod Answered
pub mod Chunks
pub mod Connection
pub mod Startup
pub mod Download
mod Tests
