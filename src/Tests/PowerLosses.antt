-- ===== src/Tests/PowerLosses.antt =====
-- What a loss of power leaves of one file and of the journal.
use fursoy_vault.Prelude.{
  Bytes, ℕ, Bytes-discrete, ℕ_discrete, Option, none, some, List, [], ◌∷◌, ◌≡◌, ◌⊎◌, inl, inr, refl,
}
use fursoy_vault.Error.{FcpResult, ok, io}
use fursoy_vault.AtomicFile.{
  FileState, Faults, no_faults, write_verified_durable, failure, durability_unknown,
}
use fursoy_vault.Operation.Model.{aborted}
use fursoy_vault.Operation.Journal.{JournalStore, open_store}
use fursoy_vault.Operation.Journal.History.{Command, begins, transitions, after, run}
use fursoy_vault.Operation.Journal.PowerLoss.{
  MayKeep, Finds, power_loss_consistent, power_loss_in_command,
}
use fursoy_vault.Tests.Fixtures.{group, eviction_request, crates, no_file, empty_store}

-- The directory cannot be flushed.
abbrev unflushed : Faults
unflushed = record no_faults { sync_directory = some io }

-- The contents cannot be synced, and the medium keeps other bytes.
abbrev torn : Faults
torn = record no_faults { sync_all = some io; unsynced = some (9 ∷ []) }

abbrev accept : Bytes → FcpResult (Unit {0})
accept bytes = ok tt

abbrev opened : JournalStore
opened = record empty_store { faults = torn ∷ [] }

opens : open_store crates no_file none (torn ∷ []) group ≡ ok opened
unfolding open_store fursoy_vault.Operation.Journal.read_journal
    fursoy_vault.Operation.Model.journal_validate fursoy_vault.Operation.Model.journal_empty
    fursoy_vault.Operation.Model.check_operations
opens = refl

abbrev commands : List Command
commands = begins eviction_request ∷ begins eviction_request ∷ transitions 7 aborted ∷ []

MayKeep-new : MayKeep (run crates commands opened).file (some (5 ∷ 0 ∷ []))
unfolding run fursoy_vault.Operation.Journal.transition fursoy_vault.Operation.Journal.operation
    fursoy_vault.Operation.Journal.begin fursoy_vault.Operation.Model.fingerprint
    fursoy_vault.Operation.Model.request_validate fursoy_vault.Operation.Journal.persist
    fursoy_vault.Operation.Model.journal_validate fursoy_vault.Operation.Model.check_operations
    fursoy_vault.Operation.Model.check_operation Bytes-discrete ℕ_discrete
    fursoy_vault.Operation.Model.needs_snapshot write_verified_durable
    fursoy_vault.Operation.Journal.verify_persisted
    fursoy_vault.Operation.Model.OperationJournal-discrete
    fursoy_vault.Operation.Model.OperationPhase-discrete
    fursoy_vault.Operation.Model.can_transition_to fursoy_vault.AtomicFile.classify_bytes
    fursoy_vault.AtomicFile.classify_object fursoy_vault.Operation.Journal.find_operation
    fursoy_vault.Operation.Journal.replace_operation fursoy_vault.Prelude.OptionBytes-discrete
MayKeep-new = inl refl

power_loss_consistent_example : Finds crates (some (5 ∷ 0 ∷ [])) [] (run crates commands opened)
power_loss_consistent_example =
    power_loss_consistent crates no_file (torn ∷ []) [] group opened commands (some (5 ∷ 0 ∷ []))
      refl (refl, tt) opens MayKeep-new

-- The journal that was begun, and then the answers to one command more.
abbrev begun : JournalStore
begun = record (run crates (begins eviction_request ∷ []) empty_store) { faults = unflushed ∷ [] }

opens_empty : open_store crates no_file none [] group ≡ ok empty_store
unfolding open_store fursoy_vault.Operation.Journal.read_journal
    fursoy_vault.Operation.Model.journal_validate fursoy_vault.Operation.Model.journal_empty
    fursoy_vault.Operation.Model.check_operations
opens_empty = refl

MayKeep-old : MayKeep (after crates (transitions 7 aborted) begun).file (some (0 ∷ 0 ∷ []))
unfolding run fursoy_vault.Operation.Journal.transition fursoy_vault.Operation.Journal.operation
    fursoy_vault.Operation.Journal.begin fursoy_vault.Operation.Model.fingerprint
    fursoy_vault.Operation.Model.request_validate fursoy_vault.Operation.Journal.persist
    fursoy_vault.Operation.Model.journal_validate fursoy_vault.Operation.Model.check_operations
    fursoy_vault.Operation.Model.check_operation Bytes-discrete ℕ_discrete
    fursoy_vault.Operation.Model.needs_snapshot write_verified_durable
    fursoy_vault.Operation.Journal.verify_persisted
    fursoy_vault.Operation.Model.OperationJournal-discrete
    fursoy_vault.Operation.Model.OperationPhase-discrete
    fursoy_vault.Operation.Model.can_transition_to fursoy_vault.AtomicFile.classify_bytes
    fursoy_vault.AtomicFile.classify_object fursoy_vault.Operation.Journal.find_operation
    fursoy_vault.Operation.Journal.replace_operation fursoy_vault.Prelude.OptionBytes-discrete
MayKeep-old = inr (inr (inl refl))

power_loss_in_command_example :
    Finds crates (some (0 ∷ 0 ∷ [])) [] begun
    ⊎ Finds crates (some (0 ∷ 0 ∷ [])) [] (after crates (transitions 7 aborted) begun)
power_loss_in_command_example =
    power_loss_in_command crates no_file [] (unflushed ∷ []) [] group empty_store
      (begins eviction_request ∷ []) (transitions 7 aborted) (0 ∷ 0 ∷ []) refl tt opens_empty
      MayKeep-old
