-- ===== src/Daemon.antt =====
-- crates/server/daemon-core: the host daemon.
pub mod Resume
pub mod Clients
pub mod Errors
pub mod Sessions
pub mod Connection
pub mod Dialer
pub mod Handshake
pub mod Sample
mod Tests
