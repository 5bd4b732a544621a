-- ===== src/Relay.antt =====
-- crates/relay/relay-core: the relay between daemons and clients.
pub mod Errors
pub mod Caps
pub mod Registry
pub mod State
pub mod Pairs
pub mod Forward
mod Tests
