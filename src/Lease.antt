-- ===== src/Lease.antt =====
-- native-host/src/lease/: what authorizes one read of a vault.
pub mod Capability
pub mod Ledger
pub mod Metadata
