-- ===== src/Operation/Journal/Persist.antt =====
-- What `persist` does to the memory and to the file, whatever the operating system answers.
use fursoy_vault.Prelude.{Uuid, Bytes, Option, some, List, ◌≡◌, ◌⊎◌, inl, inr, refl, arith}
use mathlib.Core.Option
use fursoy_vault.Error.{FcpError, FcpResult, FcpResult-cases, ok, err}
use fursoy_vault.AtomicFile
use fursoy_vault.AtomicFile.{
  FileState, Faults, next_faults, later_faults, WriteOutcome, success, failure, DurableWriteResult,
  ObjectClassification, write_verified_durable, classify_object, stored_bytes,
}
use fursoy_vault.AtomicFile.Outcomes.{Promise, write_verified_durable-Promise}
use fursoy_vault.Operation.Model.{OperationJournal, Externals, journal_validate}
use fursoy_vault.Operation.Journal.{
  JournalStore, verify_persisted, settle_unknown, settle_write, write_journal, persist,
  read_previous,
}

-- The bytes that a path holds decode to a journal.
abbrev pub Holds : Externals → FileState → OperationJournal → Type 0
Holds x file j = (b : Bytes) × (file.target ≡ some b) × (x.journal_of_json b ≡ ok j)

-- The file is as it was, or it holds the new journal, which `validate` accepts.
abbrev pub OldOrNew : Externals → Uuid → FileState → FileState → OperationJournal → Type 0
OldOrNew x group file file' next =
    (file'.target ≡ file.target) ⊎ (Holds x file' next × (journal_validate x next group ≡ ok tt))

-- What a write of the journal `next` leaves.
pub data Persisted (x : Externals) (next : OperationJournal) (s : JournalStore)
    : FcpResult (Unit {0}) → JournalStore → Type 0 where
  kept :
      (e : FcpError) (file : FileState) (faults : List Faults)
      → OldOrNew x s.account_group_id s.file file next
      → Persisted x next s (err e) (record s { file = file; faults = faults })
  saved :
      (file : FileState) (faults : List Faults)
      → journal_validate x next s.account_group_id ≡ ok tt
      → Holds x file next
      → Persisted x next s (ok tt) (record s { file = file; faults = faults; journal = next })

module _ (x : Externals) (next : OperationJournal) where
  pub verify_persisted-ok :
      (group : Uuid) (b : Bytes)
      → verify_persisted x group next b ≡ ok tt
      → x.journal_of_json b ≡ ok next
  unfolding verify_persisted
  verify_persisted-ok group b h = ground arith

  settle_write-Persisted :
      (s : JournalStore) (f : Faults) (bytes : Bytes) (previous : Option Bytes) (c : Bytes)
      (file : FileState) (faults : List Faults) (outcome : WriteOutcome)
      → journal_validate x next s.account_group_id ≡ ok tt
      → Promise (verify_persisted x s.account_group_id next) c s.file outcome file
      → let (r, s') =
          settle_write x f bytes previous next
            (record s { file = file; faults = faults })
            outcome in
        Persisted x next s r s'
  unfolding settle_write
  settle_write-Persisted s f bytes previous c file faults (success AtomicFile.committed) v p =
      saved file faults v (c, p.0, verify_persisted-ok s.account_group_id c p.2)
  settle_write-Persisted s f bytes previous c file faults (success AtomicFile.not_committed) v p =
      absurd p
  settle_write-Persisted s f bytes previous c file faults (success AtomicFile.durability_unknown) v
        p =
      absurd p
  settle_write-Persisted s f bytes previous c file faults (failure AtomicFile.committed e) v p =
      absurd p
  settle_write-Persisted s f bytes previous c file faults (failure AtomicFile.not_committed e) v p =
      kept e file faults (inl p)
  settle_write-Persisted s f bytes previous c file faults (failure AtomicFile.durability_unknown e)
        v p =
      unknown
        (classify_object x.sha256 f.reread file (Option.map x.sha256 previous) (x.sha256 bytes))
    where
      held : Holds x file next
      held = (c, p.0, verify_persisted-ok s.account_group_id c p.2)

      unknown :
          (r : FcpResult ObjectClassification)
          → let (r', s') = settle_unknown e next (record s { file = file; faults = faults }) r in
            Persisted x next s r' s'
      unknown (err e') = kept e' file faults (inr (held, v))
      unknown (ok ObjectClassification.target) = saved file faults v held
      unknown (ok ObjectClassification.previous) = kept e file faults (inr (held, v))
      unknown (ok ObjectClassification.missing) = kept e file faults (inr (held, v))
      unknown (ok ObjectClassification.neither) = kept _ file faults (inr (held, v))

  write_journal-Persisted :
      (s : JournalStore) (bytes : Bytes) (previous : Option Bytes)
      → journal_validate x next s.account_group_id ≡ ok tt
      → let (r, s') = write_journal x bytes previous next s in Persisted x next s r s'
  unfolding write_journal
  write_journal-Persisted s bytes previous v =
      settle_write-Persisted s (next_faults s.faults) bytes previous
        (stored_bytes (next_faults s.faults) bytes) _ (later_faults s.faults) _ v
        (write_verified_durable-Promise (next_faults s.faults) bytes
          (verify_persisted x s.account_group_id next) s.file)

  -- `persist` either stores a journal that `validate` accepts, in memory and on disk, or it returns
  -- an error and leaves the memory alone; the disk then holds the old bytes or the new journal.
  pub persist-Persisted :
      (s : JournalStore) → let (r, s') = persist x next s in Persisted x next s r s'
  unfolding persist
  persist-Persisted s = elim (FcpResult-cases (journal_validate x next s.account_group_id)) [
    | inr (e, p) ↦ rw (p, persist) (kept e s.file s.faults (inl refl))
    | inl (_, v) ↦ elim (FcpResult-cases (x.journal_json next)) [
      | inr (e, p) ↦ rw (v, p, persist) (kept e s.file s.faults (inl refl))
      | inl (bytes, p) ↦ elim (FcpResult-cases (read_previous (next_faults s.faults) s.file)) [
        | inr (e, q) ↦ rw (v, p, q, persist) (kept e s.file (later_faults s.faults) (inl refl))
        | inl (previous, q) ↦ rw (v, p, q, persist) (write_journal-Persisted s bytes previous v)
      ]
    ]
  ]
