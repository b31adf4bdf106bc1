-- ===== src/Client/Voice.antt =====
-- `run_voice_worker` of crates/light-discord-client/src/voice.rs: what it sends of the microphone
-- (Microphone), what it does with the datagrams that come in (Remotes, of which Peers and Rounds
-- are about), and raw samples of older peers (Legacy). libopus, the filters, the noise gate and the
-- loudness of samples are parameters.
mod Examples
pub mod Legacy
pub mod Microphone
pub mod Numbered
pub mod Peers
pub mod Remotes
pub mod Rounds
