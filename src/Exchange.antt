-- ===== src/Exchange.antt =====
-- crates/client/client-core/src/session.rs and crates/server/daemon-core/src/connection.rs: a client and
-- its daemon together.
pub mod Requests
pub mod Opening
mod Tests
