-- ===== src/Anytls.antt =====
-- src/anytls.rs: single-stream AnyTLS sessions over a TLS transport.
pub mod Io
pub mod Frame
pub mod Padding
pub mod Session
pub mod Receive
pub mod Polls
pub mod Outgoing
pub mod Incoming
pub mod Tests
