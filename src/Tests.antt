-- ===== src/Tests.antt =====
-- Runs of the code of src/ at concrete inputs.
pub mod Setup
pub mod Headers
pub mod Frames
pub mod Cameras
pub mod Datagrams
pub mod Connections
pub mod Turns
pub mod Isolation
pub mod Web
pub mod Pool
pub mod Served
pub mod Tasks
pub mod Reordered
