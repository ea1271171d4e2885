-- ===== src/Server.antt =====
-- The server (server/): its errors, the validation of the forest, and the store.
pub mod Error
pub mod Validate
pub mod Content
pub mod Store
pub mod Http
pub mod Start
pub mod Save
pub mod Slices
mod Tests
mod HttpTests
mod SaveTests
mod SliceTests
