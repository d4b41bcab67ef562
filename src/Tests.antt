-- ===== src/Tests.antt =====
-- Concrete runs: fixtures for the crates and the operating system, and each theorem applied to them.
pub mod Fixtures
pub mod Files
pub mod Journals
pub mod Commits
pub mod Vaults
pub mod Ledgers
pub mod Frames
pub mod Configs
pub mod Connections
pub mod Audits
pub mod Authorizations
pub mod Monitors
pub mod PowerLosses
