-- ===== src/Wire.antt =====
-- The binary UDP voice packet of crates/light-discord-core/src/protocol.rs.
pub mod Bytes
pub mod Utf8
pub mod Packet
pub mod Reader
pub mod Encode
pub mod Decode
pub mod RoundTrip
pub mod Pieces
pub mod Canonical
pub mod Prefixes
mod Examples
