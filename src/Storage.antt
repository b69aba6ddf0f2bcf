-- ===== src/Storage.antt =====
-- internal/storage/storage.go: loading and saving the main vault.
pub mod Profile
pub mod Codec
pub mod Save
pub mod Load
pub mod RoundTrip
pub mod Sealed
