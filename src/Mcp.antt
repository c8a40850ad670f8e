-- ===== src/Mcp.antt =====
-- crates/vscreen-server/src/mcp: what the tools share, and the tool for locks.
pub mod Gate
pub mod LockTool
mod Tests
