-- ===== src/Modal.antt =====
-- pkg/modal/client.go: the client of the speech-to-text service.
pub mod Client
pub mod Reading
