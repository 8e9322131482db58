-- ===== src/Client.antt =====
-- internal/client of the Go module.
pub mod Frames
pub mod Config
pub mod Status
pub mod Session
pub mod SetUp
pub mod Controller
pub mod Loops
pub mod Data
pub mod Control
mod Tests
