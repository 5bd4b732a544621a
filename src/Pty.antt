-- ===== src/Pty.antt =====
-- crates/server/pty: the terminal's state tracker and its output buffer.
pub mod Parser
pub mod Ring
pub mod Processor
mod Tests
