-- ===== src/Operation/Journal.antt =====
-- native-host/src/operation/journal.rs: the journal store. A method that takes `&mut self` returns
-- its result and the store, also on an error. `faults` is what the operating system answers to the
-- writes to come.
pub mod Persist
pub mod Steps
pub mod History
pub mod Restart
pub mod PowerLoss
pub mod Preserves
pub mod Total
pub mod Repeat
pub mod Moves
use fursoy_vault.Prelude.{
  Bytes, bytes_eq, Bytes-discrete, OptionBytes-discrete, Uuid, is_nil, is_some_nil, is_none,
  u64_limit, checked_suc, ℕ, suc, ◌+◌, ◌^◌, Bool, true, false, Option, none, some, List, [], ◌∷◌,
  ◌++◌, ◌≡◌, eqb, ◌==◌, ltb, leb, not, ◌&&◌, ◌||◌, if◌then◌else◌,
}
use mathlib.Core.Option
use fursoy_vault.Error.{
  FcpError, FcpResult, ok, err, ◌>>=◌, ◌>>◌, refuse_if, ok_or, protocol, format,
  operation_id_reused, operation_sequence_exhausted, snapshot_phase_closed, snapshot_conflict,
  illegal_transition, commit_without_snapshot, unknown_operation, journal_read_back_mismatch,
  unexpected_write_result, journal_unclassified, host_id_collided,
}
use fursoy_vault.AtomicFile
use fursoy_vault.AtomicFile.{
  FileState, Faults, next_faults, later_faults, WriteOutcome, success, failure,
  ObjectClassification, write_verified_durable, classify_object,
}
use fursoy_vault.Operation.Model.{
  OperationKind, OperationPhase, committed, not_committed, durability_unknown, phase_eq,
  can_transition_to, OperationRequest, SnapshotBinding, SnapshotBinding-discrete, JournalOperation,
  OperationJournal, OperationJournal-discrete, journal_empty, Externals, fingerprint,
  journal_validate,
}

pub data BeginResult : Type 0 where
  created duplicate : JournalOperation → BeginResult

pub record JournalStore : Type 0 where
  pub file : FileState
  pub faults : List Faults
  pub account_group_id : Uuid
  pub journal : OperationJournal

-- `operations.iter().find(..)`, by the operation id.
unfoldable pub find_operation : Uuid → List JournalOperation → Option JournalOperation
find_operation id [] = none
find_operation id (o ∷ os) = if o.operation_id == id then some o else find_operation id os

-- A write through the reference that `find_mut` returns.
unfoldable pub replace_operation :
    Uuid → JournalOperation → List JournalOperation → List JournalOperation
replace_operation id new [] = []
replace_operation id new (o ∷ os) =
    if o.operation_id == id then new ∷ os else o ∷ replace_operation id new os

abbrev pub with_operation : Uuid → JournalOperation → OperationJournal → OperationJournal
with_operation id new j = record j { operations = replace_operation id new j.operations }

unfoldable pub operation : Uuid → JournalStore → Option JournalOperation
unfolding find_operation
operation id s = find_operation id s.journal.operations

-- The answer to a write whose durability is unknown.
settle_unknown :
    FcpError
    → OperationJournal
    → JournalStore
    → FcpResult ObjectClassification
    → FcpResult (Unit {0}) × JournalStore
settle_unknown e next s (err e') = (err e', s)
settle_unknown e next s (ok ObjectClassification.target) = (ok tt, record s { journal = next })
settle_unknown e next s (ok ObjectClassification.previous) = (err e, s)
settle_unknown e next s (ok ObjectClassification.missing) = (err e, s)
settle_unknown e next s (ok ObjectClassification.neither) = (err (format journal_unclassified), s)

abbrev read_previous : Faults → FileState → FcpResult (Option Bytes)
read_previous f file = elim file.target [
  | none ↦ ok none
  | some bytes ↦ elim f.read_previous [ some e ↦ err e | none ↦ ok (some bytes) ]
]

abbrev pub returning {ℓ} :
    {A : Type ℓ} → A → FcpResult (Unit {0}) × JournalStore → FcpResult A × JournalStore
returning a (ok _, s) = (ok a, s)
returning a (err e, s) = (err e, s)

abbrev pub operation_of : OperationRequest → ℕ → Bytes → JournalOperation
operation_of r sequence digest = record {
  operation_id = r.operation_id;
  attempt_id = r.attempt_id;
  sequence = sequence;
  request_fingerprint = digest;
  kind = r.kind;
  lease_id = r.lease_id;
  reason_code = r.reason_code;
  base_vault_sequence = r.base_vault_sequence;
  phase = not_committed;
  snapshot = none;
}

abbrev pub appended : OperationJournal → JournalOperation → OperationJournal
appended j o = record j { sequence_high_water = o.sequence; operations = j.operations ++ (o ∷ []) }

abbrev created_only :
    FcpResult BeginResult × JournalStore → FcpResult JournalOperation × JournalStore
created_only (ok (created o), s) = (ok o, s)
created_only (ok (duplicate _), s) = (err (format host_id_collided), s)
created_only (err e, s) = (err e, s)

module _ (x : Externals) where
  unfoldable pub read_journal : FileState → Option FcpError → Uuid → FcpResult OperationJournal
  read_journal file read_fault group = elim file.target [
    | none ↦ ok (journal_empty group)
    | some bytes ↦ elim read_fault [ some e ↦ err e | none ↦ x.journal_of_json bytes ]
  ]

  unfoldable pub open_store :
      FileState → Option FcpError → List Faults → Uuid → FcpResult JournalStore
  open_store file read_fault faults group = do
    journal ← read_journal file read_fault group
    journal_validate x journal group
    ok (record { file = file; faults = faults; account_group_id = group; journal = journal })

  -- The read-back check of `persist`.
  unfoldable pub verify_persisted : Uuid → OperationJournal → Bytes → FcpResult (Unit {0})
  verify_persisted group next persisted = do
    decoded ← x.journal_of_json persisted
    journal_validate x decoded group
    refuse_if (not (eqb OperationJournal-discrete decoded next)) (format journal_read_back_mismatch)

  -- The match on the outcome of the write; the store holds the file as the write left it.
  settle_write :
      Faults
      → Bytes
      → Option Bytes
      → OperationJournal
      → JournalStore
      → WriteOutcome
      → FcpResult (Unit {0}) × JournalStore
  unfolding settle_unknown
  settle_write f bytes previous next s (success AtomicFile.committed) =
      (ok tt, record s { journal = next })
  settle_write f bytes previous next s (success _) = (err (format unexpected_write_result), s)
  settle_write f bytes previous next s (failure AtomicFile.durability_unknown e) =
      settle_unknown e next s
        (classify_object x.sha256 f.reread s.file (Option.map x.sha256 previous) (x.sha256 bytes))
  settle_write f bytes previous next s (failure _ e) = (err e, s)

  write_journal :
      Bytes → Option Bytes → OperationJournal → JournalStore → FcpResult (Unit {0}) × JournalStore
  unfolding settle_write
  write_journal bytes previous next s =
      let f = next_faults s.faults in
      let (outcome, file) =
        write_verified_durable f bytes (verify_persisted s.account_group_id next) s.file in
      settle_write f bytes previous next (record s { file = file; faults = later_faults s.faults })
        outcome

  unfoldable pub persist : OperationJournal → JournalStore → FcpResult (Unit {0}) × JournalStore
  unfolding write_journal
  persist next s = elim (journal_validate x next s.account_group_id) [
    | err e ↦ (err e, s)
    | ok _ ↦ elim (x.journal_json next) [
      | err e ↦ (err e, s)
      | ok bytes ↦ elim (read_previous (next_faults s.faults) s.file) [
        | err e ↦ (err e, record s { faults = later_faults s.faults })
        | ok previous ↦ write_journal bytes previous next s
      ]
    ]
  ]

  unfoldable pub begin : OperationRequest → JournalStore → FcpResult BeginResult × JournalStore
  begin r s = elim (fingerprint x r s.account_group_id) [
    | err e ↦ (err e, s)
    | ok digest ↦ elim (operation r.operation_id s) [
      | some existing ↦
          if bytes_eq existing.request_fingerprint digest
          then (ok (duplicate existing), s)
          else (err (protocol operation_id_reused), s)
      | none ↦ elim (checked_suc s.journal.sequence_high_water) [
        | none ↦ (err (format operation_sequence_exhausted), s)
        | some sequence ↦
            returning (created (operation_of r sequence digest))
              (persist (appended s.journal (operation_of r sequence digest)) s)
      ]
    ]
  ]

  -- `new_id` is the UUID that `Uuid::new_v4` draws.
  unfoldable pub issue :
      Uuid
      → OperationKind
      → Option Uuid
      → Bytes
      → ℕ
      → JournalStore
      → FcpResult JournalOperation × JournalStore
  issue new_id kind lease_id reason_code base s = created_only (
      begin
        (record {
          operation_id = new_id;
          attempt_id = none;
          kind = kind;
          lease_id = lease_id;
          reason_code = reason_code;
          base_vault_sequence = base;
        })
        s)

  unfoldable pub bind_snapshot :
      Uuid → SnapshotBinding → JournalStore → FcpResult (Unit {0}) × JournalStore
  bind_snapshot id binding s = elim (operation id s) [
    | none ↦ (err (protocol unknown_operation), s)
    | some o ↦
        if not (phase_eq o.phase not_committed) && not (phase_eq o.phase durability_unknown)
        then (err (protocol snapshot_phase_closed), s)
        else elim o.snapshot [
          | some existing ↦
              if eqb SnapshotBinding-discrete existing binding
              then (ok tt, s)
              else (err (protocol snapshot_conflict), s)
          | none ↦ persist (with_operation id (record o { snapshot = some binding }) s.journal) s
        ]
  ]

  unfoldable pub transition :
      Uuid → OperationPhase → JournalStore → FcpResult (Unit {0}) × JournalStore
  transition id next_phase s = elim (operation id s) [
    | none ↦ (err (protocol unknown_operation), s)
    | some o ↦
        if phase_eq o.phase next_phase
        then (ok tt, s)
        else if not (can_transition_to o.phase next_phase)
        then (err (protocol illegal_transition), s)
        else if phase_eq next_phase committed && is_none o.snapshot
        then (err (protocol commit_without_snapshot), s)
        else persist (with_operation id (record o { phase = next_phase }) s.journal) s
  ]
