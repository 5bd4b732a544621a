-- ===== src/Client.antt =====
-- crates/client/client-core: the client.
pub mod Reconnect
pub mod Heartbeat
pub mod Input
pub mod Errors
pub mod Runtime
pub mod Session
pub mod Connection
mod Tests
