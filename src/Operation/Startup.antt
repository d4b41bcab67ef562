-- ===== src/Operation/Startup.antt =====
-- native-host/src/operation/coordinator.rs, the two loops over the active operations:
-- `startup_recover` and `prepare_for_v6_reconciliation`. `fault` is what the operating system
-- answers to the read of the vault file during the recovery of an operation.
pub mod Recovers
use fursoy_vault.Prelude.{
  Uuid, is_none, ℕ, Bool, true, false, Option, none, some, List, [], ◌∷◌, not, ◌&&◌, if◌then◌else◌,
}
use fursoy_vault.Error.{FcpError, FcpResult, ok, err, protocol, unknown_operation}
use fursoy_vault.AtomicFile.{FileState}
use fursoy_vault.Operation.Model.{
  OperationPhase, not_committed, aborted, reconciliation_required, phase_eq, SnapshotBinding,
  JournalOperation, Externals,
}
use fursoy_vault.Operation.Journal.{JournalStore, operation, transition}
use fursoy_vault.Operation.Recovery.{
  RecoveryClassification, uncommitted, vault_committed, unreconciled, is_precommit,
  recover_vault_phase,
}
use fursoy_vault.Operation.Coordinator.{
  StartupRecovery, OperationCoordinator, active_ids, updating, ◌>>-◌,
}

-- What a recovered commit is reported as; the operation has a snapshot, since it was classified.
abbrev report_commit : Uuid → JournalStore → StartupRecovery → StartupRecovery
report_commit id s r = elim (operation id s) [
  | none ↦ r
  | some o ↦ elim o.snapshot [
    | none ↦ r
    | some b ↦ record r {
      committed_operation_id = some id;
      committed_vault_sequence = some b.target_vault_sequence;
    }
  ]
]

module _ (x : Externals) (vault : FileState) (fault : Uuid → Option FcpError) where
  -- The match on the classification.
  unfoldable pub resolve :
      Uuid
      → StartupRecovery
      → RecoveryClassification
      → JournalStore
      → FcpResult StartupRecovery × JournalStore
  resolve id r uncommitted s = transition x id aborted s >>- λ _ s. (ok r, s)
  resolve id r vault_committed s = (ok (report_commit id s r), s)
  resolve id r unreconciled s = (ok r, s)

  -- One round of `startup_recover`. The `unwrap` meets no `none`: the ids are those of operations of
  -- the journal, which never loses one.
  unfoldable pub startup_round :
      Uuid → StartupRecovery → JournalStore → FcpResult StartupRecovery × JournalStore
  unfolding resolve
  startup_round id r s = elim (operation id s) [
    | none ↦ (err (protocol unknown_operation), s)
    | some o ↦
        if is_none o.snapshot
        then (transition x id aborted s >>- λ _ s.
            (ok (record r { needs_reconciliation = true }), s))
        else recover_vault_phase x id vault (fault id) s
          >>- resolve id (record r { needs_reconciliation = true })
  ]

  unfoldable pub startup_rounds :
      List Uuid → StartupRecovery → JournalStore → FcpResult StartupRecovery × JournalStore
  startup_rounds [] r s = (ok r, s)
  startup_rounds (id ∷ ids) r s = startup_round id r s >>- startup_rounds ids

  unfoldable pub startup_recover :
      OperationCoordinator → FcpResult StartupRecovery × OperationCoordinator
  startup_recover c = updating c (
      startup_rounds (active_ids c.journal.journal.operations)
        (record {
          needs_reconciliation = false;
          committed_operation_id = none;
          committed_vault_sequence = none;
        })
        c.journal)

  recover_bound : Uuid → JournalOperation → JournalStore → FcpResult (Unit {0}) × JournalStore
  recover_bound id o s =
      if not (is_none o.snapshot) && is_precommit o.phase
      then (recover_vault_phase x id vault (fault id) s >>- λ _ s. (ok tt, s))
      else (ok tt, s)

  finish_round : Uuid → JournalStore → FcpResult (Unit {0}) × JournalStore
  finish_round id s = elim (operation id s) [
    | none ↦ (err (protocol unknown_operation), s)
    | some o ↦
        transition x id
          (if phase_eq o.phase not_committed then aborted else reconciliation_required) s
  ]

  -- One round of `prepare_for_v6_reconciliation`.
  unfoldable pub reconciliation_round : Uuid → JournalStore → FcpResult (Unit {0}) × JournalStore
  unfolding recover_bound finish_round
  reconciliation_round id s = elim (operation id s) [
    | none ↦ (err (protocol unknown_operation), s)
    | some o ↦ recover_bound id o s >>- λ _. finish_round id
  ]

  unfoldable pub reconciliation_rounds :
      List Uuid → JournalStore → FcpResult (Unit {0}) × JournalStore
  reconciliation_rounds [] s = (ok tt, s)
  reconciliation_rounds (id ∷ ids) s = reconciliation_round id s >>- λ _. reconciliation_rounds ids

  unfoldable pub prepare_for_v6_reconciliation :
      OperationCoordinator → FcpResult (Unit {0}) × OperationCoordinator
  prepare_for_v6_reconciliation c =
      updating c (reconciliation_rounds (active_ids c.journal.journal.operations) c.journal)
