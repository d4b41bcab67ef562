-- ===== src/Tests/Commits.antt =====
-- The commit of a snapshot, the recovery at the start, and the text of the snapshot tag.
use fursoy_vault.Prelude.{
  Bytes, Uuid, ℕ, ◌<◌, ◌^◌, Option, none, some, List, [], ◌∷◌, ◌≡◌, refl, arith, Bytes-discrete,
  ℕ_discrete, true, false, take,
}
use fursoy_vault.Error.{ok}
use fursoy_vault.AtomicFile.{FileState, no_faults}
use fursoy_vault.Operation.Model.{
  OperationPhase, not_committed, durability_unknown, committed, SnapshotBinding, JournalOperation,
  Externals,
}
use fursoy_vault.Operation.Journal.{JournalStore, find_operation, operation}
use fursoy_vault.Operation.Recovery.{is_precommit}
use fursoy_vault.Operation.Fingerprint.{SnapshotTagContext, tag, tag_input}
use fursoy_vault.Operation.Fingerprint.Binding.{IsContext, tag_input-injective}
use fursoy_vault.Operation.Coordinator.{OperationCoordinator, StartupRecovery, context_of}
use fursoy_vault.Operation.Startup.{startup_recover}
use fursoy_vault.Operation.Startup.Recovers.{Concluded, startup_recover-Concluded}
use fursoy_vault.Operation.Commit.{binding_of, commit_snapshot}
use fursoy_vault.Operation.Commit.Commits.{IsCommitted, commit_snapshot-Committed}
use fursoy_vault.Vault.Store.{VaultFiles}
use fursoy_vault.Transaction.{PreparedVaultWrite, Platform}
use fursoy_vault.Tests.Fixtures.{
  uuid_bytes, uuid_laws, group, snapshot, binding, operation_in, crates, crates_for, file_with,
  store_with,
}
use fursoy_vault.Tests.Vaults.{vault_crates, platform}

abbrev coordinator_of : JournalStore → OperationCoordinator
coordinator_of s = record { journal = s; key = 1 ∷ []; profile_id = some 9 }

abbrev unsettled : OperationCoordinator
unsettled = coordinator_of (store_with (operation_in durability_unknown (some binding)))

abbrev settled : OperationCoordinator
settled = coordinator_of (store_with (operation_in committed (some binding)))

abbrev report : StartupRecovery
report = record {
  needs_reconciliation = true;
  committed_operation_id = some 7;
  committed_vault_sequence = some 4;
}

startup : startup_recover crates (file_with (11 ∷ [])) (λ id. none) unsettled ≡ (ok report, settled)
unfolding startup_recover fursoy_vault.Operation.Startup.startup_rounds
    fursoy_vault.Operation.Coordinator.active_ids fursoy_vault.Operation.Model.is_terminal
    fursoy_vault.Operation.Startup.startup_round operation
    fursoy_vault.Operation.Recovery.recover_vault_phase
    fursoy_vault.Operation.Recovery.classify_vault fursoy_vault.AtomicFile.classify_object
    fursoy_vault.Operation.Model.OperationPhase-discrete
    fursoy_vault.Operation.Recovery.recovered_phase
    fursoy_vault.Operation.Recovery.classification_of Bytes-discrete ℕ_discrete
    fursoy_vault.Operation.Journal.transition fursoy_vault.Operation.Model.can_transition_to
    fursoy_vault.Operation.Journal.persist fursoy_vault.Operation.Model.journal_validate
    fursoy_vault.AtomicFile.classify_bytes fursoy_vault.AtomicFile.write_verified_durable
    find_operation fursoy_vault.Operation.Journal.replace_operation
    fursoy_vault.Operation.Journal.verify_persisted
    fursoy_vault.Operation.Model.OperationJournal-discrete
    fursoy_vault.Operation.Model.check_operation fursoy_vault.Operation.Model.check_operations
    fursoy_vault.Operation.Model.fingerprint fursoy_vault.Operation.Model.needs_snapshot
    fursoy_vault.Operation.Model.request_validate fursoy_vault.Operation.Startup.resolve
    fursoy_vault.Prelude.OptionBytes-discrete
startup = refl

startup_recover-Concluded_example : Concluded 7 settled.journal
unfolding find_operation
startup_recover-Concluded_example =
    startup_recover-Concluded crates (file_with (11 ∷ [])) (λ id. none) unsettled settled report 7
      (operation_in durability_unknown (some binding)) startup refl

-- The vault is kept as it is: no cookie has changed.
abbrev prepared : PreparedVaultWrite
prepared = record {
  group_id = group;
  bytes = 11 ∷ [];
  dek = [];
  previous_digest = some (11 ∷ []);
  target_digest = 11 ∷ [];
  vault_sequence = 4;
  commit_required = false;
}

abbrev started : OperationCoordinator
started = coordinator_of (store_with (operation_in not_committed none))

abbrev snapshot_binding : SnapshotBinding
snapshot_binding = binding_of (93 ∷ 92 ∷ []) 2 2 prepared

abbrev finished : OperationCoordinator
finished = coordinator_of (store_with (operation_in committed (some snapshot_binding)))

abbrev vault : VaultFiles
vault = record { file = file_with (11 ∷ []); staged = none }

commits :
    commit_snapshot uuid_bytes vault_crates platform
      (crates_for snapshot_binding)
      7
      snapshot
      2
      prepared
      no_faults
      none
      vault
      started
    ≡ (ok 4, finished, vault)
unfolding commit_snapshot operation fursoy_vault.Operation.Journal.bind_snapshot
    fursoy_vault.Operation.Model.OperationPhase-discrete fursoy_vault.Operation.Journal.persist
    fursoy_vault.Operation.Model.journal_validate fursoy_vault.Operation.Model.check_operations
    fursoy_vault.Operation.Journal.replace_operation fursoy_vault.Operation.Model.check_operation
    fursoy_vault.Operation.Model.fingerprint fursoy_vault.Operation.Model.request_validate
    Bytes-discrete ℕ_discrete fursoy_vault.Operation.Model.needs_snapshot
    fursoy_vault.AtomicFile.write_verified_durable fursoy_vault.Operation.Journal.verify_persisted
    fursoy_vault.Operation.Model.OperationJournal-discrete tag
    fursoy_vault.Operation.Commit.bind_and_write fursoy_vault.Operation.Commit.settle_commit
    fursoy_vault.Operation.Commit.write_and_settle fursoy_vault.Operation.Fingerprint.hmac_sha256
    tag_input find_operation fursoy_vault.Operation.Journal.transition
    fursoy_vault.Operation.Model.SnapshotBinding-discrete
    fursoy_vault.Operation.Model.can_transition_to fursoy_vault.Prelude.OptionBytes-discrete
    fursoy_vault.Transaction.commit_prepared
commits = refl

commit_snapshot-Committed_example :
    (4 ≡ prepared.vault_sequence)
    × ((o : JournalOperation) × (profile_id : Uuid) × (operation 7 started.journal ≡ some o)
        × (started.profile_id ≡ some profile_id)
        × IsCommitted 7
            (binding_of
              (tag
                (take 2)
                uuid_bytes
                (1 ∷ [])
                (context_of (crates_for snapshot_binding) profile_id 7 o started)
                snapshot)
              2
              2
              prepared)
            finished.journal)
commit_snapshot-Committed_example =
    commit_snapshot-Committed uuid_bytes vault_crates platform (crates_for snapshot_binding) 7
      snapshot 2 prepared no_faults none vault vault started finished 4 commits

abbrev context : SnapshotTagContext
context = record {
  profile_id = 9;
  account_group_id = group;
  operation_id = 7;
  operation_sequence = 1;
  base_vault_sequence = 3;
}

context-IsContext : IsContext context
context-IsContext = record {
  profile = omega arith;
  group = omega arith;
  operation = omega arith;
  sequence = omega arith;
  base = omega arith;
}

tag_input-injective_example : (context ≡ context) × (snapshot ≡ snapshot)
tag_input-injective_example =
    tag_input-injective uuid_bytes uuid_laws context context snapshot snapshot context-IsContext
      context-IsContext refl
