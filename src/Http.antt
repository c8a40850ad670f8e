-- ===== src/Http.antt =====
-- The HTTP API of crates/vscreen-server.
pub mod Auth
pub mod State
pub mod Browser
pub mod Instances
pub mod Memories
pub mod Streams
pub mod Pages
pub mod Input
mod Tests
