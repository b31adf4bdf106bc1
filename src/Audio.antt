-- ===== src/Audio.antt =====
-- The audio helpers of crates/light-discord-platform/src/audio.rs.
pub mod Channels
pub mod Devices
mod Examples
pub mod Group
pub mod Pcm
pub mod Playback
pub mod Queue
pub mod Schedule
