-- ===== src/Registry.antt =====
-- src/connection.rs: the live connections of one instance.
pub mod State
pub mod Ids
pub mod Live
pub mod Numbers
pub mod Closing
pub mod Probes
pub mod Tests
