-- ===== src/Locks.antt =====
-- crates/vscreen-server/src/lock_manager.rs: the instance lock manager.
pub mod State
pub mod Promote
pub mod Acquire
pub mod Release
pub mod Access
pub mod WellFormed
pub mod Keeps
pub mod Manager
pub mod Range
pub mod Waits
mod Tests
