-- ===== src/Operation/Recovery.antt =====
-- native-host/src/operation/recovery.rs: the phase of an operation after a crash, read off the
-- vault file. `fault` is the answer of the operating system to the read of that file.
pub mod Settles
use fursoy_vault.Prelude.{
  Bytes, Uuid, is_none, Bool, true, false, Option, none, some, ◌&&◌, ◌||◌, if◌then◌else◌,
}
use fursoy_vault.Error.{
  FcpError, FcpResult, ok, err, ◌>>=◌, ok_or, protocol, unknown_operation, no_snapshot_binding,
}
use fursoy_vault.AtomicFile.{FileState, ObjectClassification, classify_object}
use fursoy_vault.Operation.Model.{
  OperationPhase, not_committed, durability_unknown, committed, browser_removal_pending,
  reconciliation_required, phase_eq, Externals,
}
use fursoy_vault.Operation.Journal.{JournalStore, operation, returning, transition}

pub data RecoveryClassification : Type 0 where
  uncommitted vault_committed unreconciled : RecoveryClassification

-- `matches!(operation.phase, NotCommitted | DurabilityUnknown)`
abbrev pub is_precommit : OperationPhase → Bool
is_precommit p = phase_eq p not_committed || phase_eq p durability_unknown

-- The match on what the vault path holds.
unfoldable pub classification_of : Bool → Bool → ObjectClassification → RecoveryClassification
classification_of precommit first_vault ObjectClassification.previous =
    if precommit then uncommitted else unreconciled
classification_of precommit first_vault ObjectClassification.target = vault_committed
classification_of precommit first_vault ObjectClassification.missing =
    if precommit && first_vault then uncommitted else unreconciled
classification_of precommit first_vault ObjectClassification.neither = unreconciled

unfoldable pub recovered_phase : RecoveryClassification → OperationPhase → OperationPhase
recovered_phase uncommitted phase = not_committed
recovered_phase vault_committed phase =
    if phase_eq phase committed || phase_eq phase browser_removal_pending then phase else committed
recovered_phase unreconciled phase = reconciliation_required

module _ (x : Externals) where
  unfoldable pub classify_vault :
      Uuid → FileState → Option FcpError → JournalStore → FcpResult RecoveryClassification
  classify_vault id vault fault s = do
    o ← ok_or (operation id s) (protocol unknown_operation)
    snapshot ← ok_or o.snapshot (protocol no_snapshot_binding)
    object ←
        classify_object x.sha256 fault vault snapshot.previous_vault_digest
          snapshot.target_vault_digest
    ok (classification_of (is_precommit o.phase) (is_none snapshot.previous_vault_digest) object)

  -- The `unwrap` meets no `none`: the operation was found by `classify_vault`.
  unfoldable pub recover_vault_phase :
      Uuid
      → FileState
      → Option FcpError
      → JournalStore
      → FcpResult RecoveryClassification × JournalStore
  recover_vault_phase id vault fault s = elim (classify_vault id vault fault s) [
    | err e ↦ (err e, s)
    | ok classification ↦ elim (operation id s) [
      | none ↦ (err (protocol unknown_operation), s)
      | some o ↦
          if phase_eq o.phase (recovered_phase classification o.phase)
          then (ok classification, s)
          else returning classification (transition x id (recovered_phase classification o.phase) s)
    ]
  ]
