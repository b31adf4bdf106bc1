-- ===== src/Storage.antt =====
-- Persistence (crates/light-discord-storage/src/lib.rs): the accounts, invitations, sessions,
-- messages and the audit log.
pub mod Types
pub mod Sort
pub mod Memory
pub mod Postgres
pub mod Interface
