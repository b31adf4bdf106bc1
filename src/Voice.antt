-- ===== src/Voice.antt =====
-- The voice helpers of crates/light-discord-platform/src/voice.rs.
pub mod Frames
pub mod Jitter
pub mod Resample
