-- ===== src/Ups.antt =====
-- The delivery back end: project5_miniUPS/docker-deploy/backend.
pub mod State
pub mod Send
pub mod Trucks
pub mod Amazon
pub mod World
pub mod Rule
pub mod Once
pub mod Resend
pub mod Dispatch
pub mod Wire
pub mod Framing
pub mod Main
pub mod Loop
pub mod Start
mod Tests
