-- ===== src/Vault/Store/Deletion.antt =====
-- The removal of a group in two steps, and a crash between them.
use fursoy_vault.Prelude.{true, Option, none, ◌≡◌, arith}
use fursoy_vault.Error.{FcpError, ok}
use fursoy_vault.Vault.Store.{
  VaultFiles, stage_delete, rollback_staged_delete, recover_staged_deletion,
}

-- The same files for a reader. What the medium keeps may differ, since no rename is flushed.
abbrev pub SameFiles : VaultFiles → VaultFiles → Type 0
SameFiles v v' =
    (v'.file.target ≡ v.file.target)
    × (v'.file.temporary ≡ v.file.temporary)
    × (v'.staged ≡ v.staged)

-- However the staging of a deletion ends, a restart after it loses nothing while the group is still
-- configured: the recovery succeeds and brings the vault back as it was.
pub staging_recovers :
    (create_fault rename_fault : Option FcpError) (v : VaultFiles)
    → v.staged ≡ none
    → let (r, v') =
        recover_staged_deletion true none (stage_delete create_fault rename_fault v).1 in
      (r ≡ ok tt) × SameFiles v v'
unfolding stage_delete recover_staged_deletion
staging_recovers create_fault rename_fault v h = ground arith

-- A staged deletion that is rolled back leaves the files as they were.
pub rollback-stage :
    (v v' : VaultFiles)
    → v.staged ≡ none
    → stage_delete none none v ≡ (ok tt, v')
    → let (r, v'') = rollback_staged_delete none v' in (r ≡ ok tt) × SameFiles v v''
unfolding stage_delete rollback_staged_delete
rollback-stage v v' h e = ground arith
