-- ===== src/Operation.antt =====
-- native-host/src/operation/: the durable journal of operations, its recovery and its coordinator.
pub mod Model
pub mod Journal
pub mod Recovery
pub mod Fingerprint
pub mod Coordinator
pub mod Startup
pub mod Commit
