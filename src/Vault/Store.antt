-- ===== src/Vault/Store.antt =====
-- native-host/src/vault/store.rs: the file of one group's vault, and its deletion in two steps. Each
-- `Option FcpError` is the answer of the operating system to the call that it belongs to.
pub mod Deletion
use fursoy_vault.Prelude.{
  Bytes, bytes_eq, Uuid, Bool, true, false, Option, none, some, is_none, not, ◌==◌, ◌&&◌,
  if◌then◌else◌,
}
use fursoy_vault.Error.{
  FcpError, FcpResult, ok, err, ◌>>=◌, ◌>>◌, refuse_if, io, format, prepared_bytes_changed,
  prepared_group_mismatch, deletion_already_staged, restore_over_vault,
}
use fursoy_vault.AtomicFile.{
  entry_changed, FileState, Faults, WriteOutcome, success, failure, write_verified_durable,
}
use fursoy_vault.Vault.Format.{VaultRecord, UuidBytes, record_decode, record_encode}
use fursoy_vault.Vault.Sealed.{VaultCrates, open_record}

-- The paths of a group: the vault with its temporary file, and the vault whose deletion is pending.
pub record VaultFiles : Type 0 where
  pub file : FileState
  pub staged : Option Bytes

-- `fs::read`: a missing file is an error too.
abbrev pub read_bytes : Option FcpError → VaultFiles → FcpResult Bytes
read_bytes (some e) v = err e
read_bytes none v = elim v.file.target [ none ↦ err io | some bytes ↦ ok bytes ]

abbrev pub without_vault : VaultFiles → VaultFiles
without_vault v = record v { file = entry_changed none v.file }

-- `fs::remove_file`, where a file that is not there is a success.
unfoldable pub delete : Option FcpError → VaultFiles → FcpResult (Unit {0}) × VaultFiles
delete fault v = elim v.file.target [
  | none ↦ (ok tt, v)
  | some _ ↦ elim fault [ some e ↦ (err e, v) | none ↦ (ok tt, without_vault v) ]
]

unfoldable pub stage_delete :
    Option FcpError → Option FcpError → VaultFiles → FcpResult (Unit {0}) × VaultFiles
stage_delete create_fault rename_fault v = elim create_fault [
  | some e ↦ (err e, v)
  | none ↦ elim v.file.target [
    | none ↦ (ok tt, v)
    | some bytes ↦ elim v.staged [
      | some _ ↦ (err (format deletion_already_staged), v)
      | none ↦ elim rename_fault [
        | some e ↦ (err e, v)
        | none ↦ (ok tt, record (without_vault v) { staged = some bytes })
      ]
    ]
  ]
]

abbrev restored : Bytes → VaultFiles → VaultFiles
restored bytes v = record v { file = entry_changed (some bytes) v.file; staged = none }

unfoldable pub rollback_staged_delete :
    Option FcpError → VaultFiles → FcpResult (Unit {0}) × VaultFiles
rollback_staged_delete rename_fault v = elim v.staged [
  | none ↦ (ok tt, v)
  | some bytes ↦ elim v.file.target [
    | some _ ↦ (err (format restore_over_vault), v)
    | none ↦ elim rename_fault [ some e ↦ (err e, v) | none ↦ (ok tt, restored bytes v) ]
  ]
]

unfoldable pub commit_staged_delete :
    Option FcpError → VaultFiles → FcpResult (Unit {0}) × VaultFiles
commit_staged_delete fault v = elim v.staged [
  | none ↦ (ok tt, v)
  | some _ ↦ elim fault [ some e ↦ (err e, v) | none ↦ (ok tt, record v { staged = none }) ]
]

-- One round of the loop of `recover_staged_deletions`, for a group that is configured or not; a
-- group without a staged file has no round.
unfoldable pub recover_staged_deletion :
    Bool → Option FcpError → VaultFiles → FcpResult (Unit {0}) × VaultFiles
recover_staged_deletion configured fault v = elim v.staged [
  | none ↦ (ok tt, v)
  | some bytes ↦ elim fault [
    | some e ↦ (err e, v)
    | none ↦
        if configured && is_none v.file.target
        then (ok tt, restored bytes v)
        else (ok tt, record v { staged = none })
  ]
]

module _ {C : Type 0} (u : UuidBytes) (c : VaultCrates C) where
  -- `VaultStore::read`
  unfoldable pub read_vault : Option FcpError → VaultFiles → FcpResult VaultRecord
  read_vault fault v = do bytes ← read_bytes fault v; record_decode u bytes

  -- The check of `write_prepared` on the bytes that were read back.
  unfoldable pub verify_prepared : Uuid → Bytes → Bytes → Bytes → FcpResult (Unit {0})
  verify_prepared group_id bytes dek persisted = do
    refuse_if (not (bytes_eq persisted bytes)) (format prepared_bytes_changed)
    verified ← record_decode u persisted
    refuse_if (not (verified.header.group_id == group_id)) (format prepared_group_mismatch)
    _ ← open_record u c verified dek
    ok tt

  unfoldable pub write_prepared :
      Faults → Uuid → Bytes → Bytes → VaultFiles → WriteOutcome × VaultFiles
  write_prepared faults group_id bytes dek v =
      let (outcome, file) =
        write_verified_durable faults bytes (verify_prepared group_id bytes dek) v.file in
      (outcome, record v { file = file })
