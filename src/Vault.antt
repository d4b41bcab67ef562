-- ===== src/Vault.antt =====
-- native-host/src/vault/: the encrypted record of a group and the file that holds it.
pub mod Format
pub mod Sealed
pub mod Store
