-- ===== src/Rtsp.antt =====
-- crates/vscreen-rtsp: the RTSP server.
pub mod H264
pub mod Vp9
pub mod Health
pub mod Transport
pub mod Quality
pub mod Session
pub mod Sdp
pub mod Response
pub mod Reply
pub mod Setup
pub mod Handler
pub mod Connection
pub mod Watchdog
pub mod Parser
mod Tests
mod StreamTests
mod ParserTests
mod HandlerTests
mod ConnectionTests
