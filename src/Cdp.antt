-- ===== src/Cdp.antt =====
-- crates/vscreen-cdp: the connection to the browser.
pub mod Backoff
pub mod Pending
pub mod Input
pub mod Pages
pub mod Screencast
mod Tests
