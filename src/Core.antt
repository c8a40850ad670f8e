-- ===== src/Core.antt =====
-- crates/vscreen-core: the types and the configuration that the other parts share.
pub mod Config
pub mod Errors
pub mod Instance
mod Tests
