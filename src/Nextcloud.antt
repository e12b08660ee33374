-- ===== src/Nextcloud.antt =====
-- pkg/nextcloud: the client of Talk's OCS interface.
pub mod Client
pub mod Requests
pub mod Room
mod Tests
