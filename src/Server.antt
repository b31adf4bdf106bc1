-- ===== src/Server.antt =====
-- The chat server, crates/light-discord-server/src/main.rs.
pub mod State
pub mod Voice
pub mod Codecs
pub mod Chat
pub mod Screen
pub mod Login
pub mod Unchanged
pub mod Sent
pub mod Bootstrap
pub mod Client
