-- ===== src/Rtsp/Transport.antt =====
-- crates/vscreen-rtsp/src/transport.rs: how media packets leave the server.
pub mod Output
pub mod Video
pub mod Audio
pub mod Reports
