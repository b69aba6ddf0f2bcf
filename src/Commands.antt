-- ===== src/Commands.antt =====
-- internal/commands/commands.go: shell export and import of vault data.
pub mod Policy
pub mod Space
pub mod Export
pub mod Import
pub mod Quote
pub mod Split
pub mod Line
pub mod Fuel
pub mod Sorting
pub mod RoundTrip
