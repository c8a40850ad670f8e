-- ===== src/Server.antt =====
-- crates/vscreen-server: the server's own state.
pub mod Memory
pub mod Registry
pub mod Vision
pub mod Advisor
pub mod Cursor
mod Tests
mod VisionTests
mod AdvisorTests
