-- ===== src/Proto.antt =====
-- crates/shared/proto: the wire protocol.
pub mod Wire
pub mod Codec
pub mod Snapshot
pub mod Frames
mod Tests
