-- ===== src/Session.antt =====
-- pkg/session: speakers, rooms and the HTTP API.
pub mod Transcriber
pub mod Run
pub mod AudioLoop
pub mod Participant
pub mod Room
pub mod Manager
pub mod Broadcast
pub mod Reconnect
pub mod Link
pub mod Voice
pub mod Api
mod TranscriberTests
mod RoomTests
mod ServiceTests
