-- ===== src/Config.antt =====
-- src/config.rs: the configuration of a running proxy.
pub mod Groups
pub mod Selections
pub mod Rules
pub mod Proxies
pub mod Routing
pub mod Assembly
