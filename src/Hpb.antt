-- ===== src/Hpb.antt =====
-- pkg/hpb: the client of the signaling server.
pub mod Types
pub mod Client
pub mod Reading
pub mod Broadcast
pub mod Loops
pub mod Urls
pub mod Wire
mod Tests
mod WireTests
