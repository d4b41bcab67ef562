-- ===== src/Operation/Commit.antt =====
-- native-host/src/operation/coordinator.rs, `commit_snapshot`: the binding of a snapshot, the write
-- of the vault and what it does to the phase.
pub mod Commits
use fursoy_vault.Prelude.{
  Bytes, Uuid, u64_limit, ℕ, Bool, true, false, Option, none, some, leb, length, if◌then◌else◌,
}
use fursoy_vault.Error.{
  FcpError, FcpResult, ok, err, protocol, format, unknown_operation, no_profile_binding,
  snapshot_too_long, unexpected_write_result, vault_unclassified,
}
use fursoy_vault.AtomicFile
use fursoy_vault.AtomicFile.{Faults, WriteOutcome, success, failure}
use fursoy_vault.Operation.Model.{
  durability_unknown, committed, not_committed, SnapshotBinding, JournalOperation, Externals,
}
use fursoy_vault.Operation.Journal.{JournalStore, operation, bind_snapshot, transition}
use fursoy_vault.Operation.Recovery.{
  RecoveryClassification, uncommitted, vault_committed, unreconciled, recover_vault_phase,
}
use fursoy_vault.Operation.Fingerprint.{tag}
use fursoy_vault.Operation.Coordinator.{OperationCoordinator, context_of, ◌>>-◌}
use fursoy_vault.Vault.Format.{UuidBytes}
use fursoy_vault.Vault.Sealed.{VaultCrates}
use fursoy_vault.Vault.Store.{VaultFiles}
use fursoy_vault.Transaction.{PreparedVaultWrite, Platform, commit_prepared}

abbrev pub binding_of : Bytes → ℕ → ℕ → PreparedVaultWrite → SnapshotBinding
binding_of snapshot_tag cookie_count aggregate_bytes p = record {
  snapshot_tag = snapshot_tag;
  previous_vault_digest = p.previous_digest;
  target_vault_digest = p.target_digest;
  target_vault_sequence = p.vault_sequence;
  cookie_count = cookie_count;
  aggregate_bytes = aggregate_bytes;
}

-- What a recovery after a write of unknown durability returns.
abbrev pub recovered_result : FcpError → ℕ → RecoveryClassification → FcpResult ℕ
recovered_result e n vault_committed = ok n
recovered_result e n uncommitted = err e
recovered_result e n unreconciled = err (format vault_unclassified)

-- The coordinator's part of the answer, and the files of the vault.
abbrev pub placed :
    OperationCoordinator
    → VaultFiles
    → FcpResult ℕ × JournalStore
    → FcpResult ℕ × OperationCoordinator × VaultFiles
placed c v (r, s) = (r, record c { journal = s }, v)

module _ {C : Type 0} (u : UuidBytes) (crates : VaultCrates C) (k : Platform) (x : Externals) where
  -- The match on the outcome of the vault write; `v` is the vault as the write left it.
  unfoldable pub settle_commit :
      Uuid
      → Option FcpError
      → ℕ
      → WriteOutcome
      → VaultFiles
      → JournalStore
      → FcpResult ℕ × JournalStore
  settle_commit id fault n (success AtomicFile.committed) v s =
      transition x id committed s >>- λ _ s. (ok n, s)
  settle_commit id fault n (success _) v s = (err (format unexpected_write_result), s)
  settle_commit id fault n (failure AtomicFile.durability_unknown e) v s =
      recover_vault_phase x id v.file fault s >>- λ c s. (recovered_result e n c, s)
  settle_commit id fault n (failure _ e) v s = transition x id not_committed s >>- λ _ s. (err e, s)

  -- From the transition to `DurabilityUnknown` on, which the vault write follows.
  unfoldable pub write_and_settle :
      Uuid
      → Faults
      → Option FcpError
      → PreparedVaultWrite
      → VaultFiles
      → OperationCoordinator
      → FcpResult (Unit {0}) × JournalStore
      → FcpResult ℕ × OperationCoordinator × VaultFiles
  unfolding settle_commit
  write_and_settle id faults fault p v c (err e, s) = (err e, record c { journal = s }, v)
  write_and_settle id faults fault p v c (ok _, s) =
      let (outcome, v') = commit_prepared u crates k p.group_id faults p v in
      placed c v' (settle_commit id fault p.vault_sequence outcome v' s)

  -- From the binding of the snapshot on.
  unfoldable pub bind_and_write :
      Uuid
      → Bytes
      → ℕ
      → ℕ
      → Faults
      → Option FcpError
      → PreparedVaultWrite
      → VaultFiles
      → OperationCoordinator
      → FcpResult ℕ × OperationCoordinator × VaultFiles
  unfolding write_and_settle
  bind_and_write id snapshot_tag cookie_count aggregate_bytes faults fault p v c =
      write_and_settle id faults fault p v c (
        bind_snapshot x id (binding_of snapshot_tag cookie_count aggregate_bytes p) c.journal
        >>- λ _. transition x id durability_unknown)

  -- `faults` is the answer to the vault write, `fault` to the read of a recovery after it.
  unfoldable pub commit_snapshot :
      Uuid
      → Bytes
      → ℕ
      → PreparedVaultWrite
      → Faults
      → Option FcpError
      → VaultFiles
      → OperationCoordinator
      → FcpResult ℕ × OperationCoordinator × VaultFiles
  unfolding bind_and_write
  commit_snapshot id canonical_snapshot cookie_count p faults fault v c =
      elim (operation id c.journal) [
        | none ↦ (err (protocol unknown_operation), c, v)
        | some o ↦ elim c.profile_id [
          | none ↦ (err (protocol no_profile_binding), c, v)
          | some profile_id ↦
              if leb u64_limit (length canonical_snapshot)
              then (err (protocol snapshot_too_long), c, v)
              else bind_and_write id
                  (tag x.sha256 u c.key (context_of x profile_id id o c) canonical_snapshot)
                  cookie_count (length canonical_snapshot) faults fault p v c
        ]
      ]
