-- ===== src/Session.antt =====
-- cmd/vault: what the commands under the master password do with the vault and its files.
pub mod Mirror
pub mod Tokens
pub mod Handlers
pub mod State
pub mod Execute
pub mod Run
pub mod Recovery
