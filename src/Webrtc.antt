-- ===== src/Webrtc.antt =====
-- pkg/webrtc: the peer connections of a room.
pub mod Manager
pub mod Audio
pub mod Negotiation
mod Tests
