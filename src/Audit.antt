-- ===== src/Audit.antt =====
-- native-host/src/audit.rs.
pub mod Hex
pub mod Lines
pub mod Chain
pub mod Logger
pub mod Retention
pub mod Outbox
pub mod Open
