-- ===== src/Track.antt =====
-- The train control above the kernel, track-control/include and track-control/src.
pub mod Speed
pub mod Messages
pub mod Server
pub mod Locking
pub mod Actions
pub mod Parsing
pub mod SensorQueue
