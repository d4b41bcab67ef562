-- ===== src/Tests/Journals.antt =====
-- Commands of the journal store, and the recovery of an operation.
use fursoy_vault.Prelude.{
  ℕ, Option, none, some, List, [], ◌∷◌, ◌≡◌, ◌≢◌, ◌⊎◌, ◌↔◌, refl, true, ◌&&◌, false, is_none, inl,
  inr, arith, eqb→ne, Bytes-discrete, ℕ_discrete,
}
use fursoy_vault.Error.{ok}
use fursoy_vault.AtomicFile.{no_faults, FileState, classify_object}
use fursoy_vault.Operation.Model.{
  OperationPhase, not_committed, durability_unknown, committed, aborted, phase_eq,
  can_transition_to, OperationRequest, SnapshotBinding, JournalOperation, OperationJournal,
  fingerprint, journal_validate, request_validate, check_operation, check_operations,
}
use fursoy_vault.Operation.Model.Validity.{IsValid, journal_validate_iff, journal_validate-IsValid}
use fursoy_vault.Operation.Journal.{
  JournalStore, BeginResult, created, duplicate, find_operation, operation, begin, transition,
  open_store, read_journal, persist, appended, operation_of, with_operation,
}
use fursoy_vault.Operation.Journal.Persist.{Persisted, persist-Persisted, Holds}
use fursoy_vault.Operation.Journal.History.{
  Command, begins, transitions, run, Extends, run-Extends, is_past_commit, committed_stays,
  terminal_absorbs,
}
use fursoy_vault.Operation.Journal.Total.{IsHealthy, transition_iff, begin_total}
use fursoy_vault.Operation.Journal.Repeat.{begin_again}
use fursoy_vault.Operation.Recovery.{RecoveryClassification, vault_committed, recover_vault_phase}
use fursoy_vault.Operation.Recovery.Settles.{Settled, recover_vault_phase-Settled}
use fursoy_vault.Tests.Fixtures.{
  group, eviction_request, request_digest, binding, operation_in, journal_of, crates, file_with,
  empty_store, store_with,
}
use fursoy_vault.Tests.Files.{no_faults-IsQuiet}

abbrev commands : List Command
commands = begins eviction_request ∷ transitions 7 aborted ∷ []

run-Extends_example :
    Extends
      (operation_in not_committed none ∷ [])
      (run crates commands (store_with (operation_in not_committed none))).journal.operations
run-Extends_example = run-Extends crates commands (store_with (operation_in not_committed none))

abbrev bound_store : JournalStore
bound_store = store_with (operation_in committed (some binding))

bound : some binding ≢ none
bound h = cc

committed_stays_example :
    (o' : JournalOperation) × (find_operation 7 (run crates commands bound_store).journal.operations
      ≡ some o')
    × (is_past_commit o'.phase ≡ true)
    × (o'.snapshot ≡ some binding)
unfolding find_operation
committed_stays_example =
    committed_stays crates commands bound_store 7 (operation_in committed (some binding)) refl refl
      bound

abbrev aborted_store : JournalStore
aborted_store = store_with (operation_in aborted none)

terminal_absorbs_example :
    (o' : JournalOperation) × (find_operation 7
        (run crates commands aborted_store).journal.operations
      ≡ some o')
    × (o'.phase ≡ aborted)
    × (o'.sequence ≡ 1)
unfolding find_operation fursoy_vault.Operation.Model.is_terminal
terminal_absorbs_example =
    terminal_absorbs crates commands aborted_store 7 (operation_in aborted none) refl refl

abbrev journal_of_one : OperationJournal
journal_of_one = journal_of (operation_in not_committed none ∷ []) 1

journal_validate_iff_example :
    (journal_validate crates journal_of_one group ≡ ok tt) ↔ IsValid crates group journal_of_one
journal_validate_iff_example = journal_validate_iff crates journal_of_one group

persist-Persisted_example :
    let (r, s') = persist crates journal_of_one empty_store in
    Persisted crates journal_of_one empty_store r s'
persist-Persisted_example = persist-Persisted crates journal_of_one empty_store

abbrev started : JournalStore
started = store_with (operation_in not_committed none)

started_validates : journal_validate crates journal_of_one group ≡ ok tt
unfolding journal_validate check_operations check_operation fingerprint request_validate
    fursoy_vault.Prelude.Bytes-discrete fursoy_vault.Prelude.ℕ_discrete
    fursoy_vault.Operation.Model.needs_snapshot
started_validates = refl

started-IsHealthy : IsHealthy crates started
started-IsHealthy = record {
  valid = journal_validate-IsValid crates journal_of_one group started_validates;
  quiet = no_faults-IsQuiet;
  clear = refl;
}

transition_iff_example : ((transition crates 7 aborted started).0 ≡ ok tt) ↔ (
    (not_committed ≡ aborted)
    ⊎ ((can_transition_to not_committed aborted ≡ true)
        × ((phase_eq aborted committed && true) ≡ false)))
unfolding find_operation with_operation fursoy_vault.Operation.Journal.replace_operation
transition_iff_example =
    transition_iff crates 7 aborted started (operation_in not_committed none) started-IsHealthy refl
      (5 ∷ 0 ∷ [], refl, refl)

empty_validates : journal_validate crates (journal_of [] 0) group ≡ ok tt
unfolding journal_validate check_operations
empty_validates = refl

empty-IsHealthy : IsHealthy crates empty_store
empty-IsHealthy = record {
  valid = journal_validate-IsValid crates (journal_of [] 0) group empty_validates;
  quiet = no_faults-IsQuiet;
  clear = refl;
}

begin_total_example :
    (s' : JournalStore) × (begin crates eviction_request empty_store
      ≡ (ok (created (operation_in not_committed none)), s'))
    × (s'.journal ≡ journal_of_one)
    × Holds crates s'.file s'.journal
unfolding fingerprint request_validate find_operation
begin_total_example =
    begin_total crates eviction_request empty_store request_digest empty-IsHealthy refl refl
      (omega arith) (0 ∷ 0 ∷ [], refl, refl)

first_begin :
    begin crates eviction_request empty_store
    ≡ (ok (created (operation_in not_committed none)), started)
unfolding begin operation find_operation fingerprint request_validate persist journal_validate
    check_operations check_operation fursoy_vault.Prelude.Bytes-discrete
    fursoy_vault.Prelude.ℕ_discrete fursoy_vault.Operation.Model.needs_snapshot
    fursoy_vault.AtomicFile.write_verified_durable fursoy_vault.Operation.Journal.verify_persisted
    fursoy_vault.Operation.Model.OperationJournal-discrete
first_begin = refl

begin_again_example :
    begin crates eviction_request started
    ≡ (ok (duplicate (operation_in not_committed none)), started)
begin_again_example =
    begin_again crates eviction_request empty_store started (operation_in not_committed none)
      first_begin

abbrev unsettled : JournalStore
unsettled = store_with (operation_in durability_unknown (some binding))

recovers :
    recover_vault_phase crates 7 (file_with (11 ∷ [])) none unsettled
    ≡ (ok vault_committed, bound_store)
unfolding recover_vault_phase fursoy_vault.Operation.Recovery.classify_vault operation
    classify_object fursoy_vault.Operation.Model.OperationPhase-discrete
    fursoy_vault.Operation.Recovery.recovered_phase
    fursoy_vault.Operation.Recovery.classification_of Bytes-discrete ℕ_discrete transition
    can_transition_to persist journal_validate check_operations
    fursoy_vault.Operation.Journal.replace_operation check_operation fingerprint
    fursoy_vault.AtomicFile.classify_bytes fursoy_vault.AtomicFile.write_verified_durable
    find_operation fursoy_vault.Operation.Journal.verify_persisted
    fursoy_vault.Operation.Model.OperationJournal-discrete
    fursoy_vault.Operation.Model.needs_snapshot request_validate
    fursoy_vault.Prelude.OptionBytes-discrete
recovers = refl

recover_vault_phase-Settled_example :
    (o : JournalOperation) × (b : SnapshotBinding) × (p : OperationPhase) × (find_operation 7
        unsettled.journal.operations
      ≡ some o)
    × (o.snapshot ≡ some b)
    × (find_operation 7 bound_store.journal.operations ≡ some (record o { phase = p }))
    × Settled crates (file_with (11 ∷ [])) b o.phase vault_committed p
recover_vault_phase-Settled_example =
    recover_vault_phase-Settled crates 7 (file_with (11 ∷ [])) none unsettled bound_store
      vault_committed recovers
