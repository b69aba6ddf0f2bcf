-- ===== src/Tests.antt =====
-- Runs of the theorems on concrete data.
pub mod Commands
pub mod Crypto
pub mod Rollback
pub mod Storage
pub mod Sync
pub mod Save
pub mod Token
pub mod Session
pub mod Recovery
pub mod Backup
pub mod Moves
pub mod Shared
pub mod Snapshot
