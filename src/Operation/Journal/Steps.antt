-- ===== src/Operation/Journal/Steps.antt =====
-- The changes that the commands of the store make to the journal, one by one.
use fursoy_vault.Prelude.{
  u64_limit, checked_suc, Uuid, is_none, Bytes, bytes_eq, ℕ, ◌+◌, ◌<◌, Bool, true, false, Option,
  none, some, ◌≡◌, ◌⊎◌, inl, inr, refl, arith, ◌&&◌, not, Option-cases, Bool-cases, eqb,
}
use fursoy_vault.Error.{FcpResult, FcpResult-cases, ok, err}
use fursoy_vault.AtomicFile.{
  FileState, Faults, WriteOutcome, next_faults, later_faults, write_verified_durable,
}
use fursoy_vault.Operation.Model.{
  OperationKind, OperationPhase, committed, not_committed, durability_unknown, phase_eq,
  can_transition_to, OperationRequest, SnapshotBinding, SnapshotBinding-discrete, JournalOperation,
  OperationJournal, Externals, fingerprint, journal_validate,
}
use fursoy_vault.Operation.Journal.{
  JournalStore, find_operation, operation, with_operation, appended, operation_of, returning,
  BeginResult, created, duplicate, created_only, begin, issue, bind_snapshot, transition, persist,
  read_previous, write_journal, settle_write, settle_unknown, verify_persisted,
}
use fursoy_vault.Operation.Journal.Persist.{Holds, Persisted, kept, saved, persist-Persisted}

-- One change of a journal.
pub data Change : OperationJournal → OperationJournal → Type 0 where
  adds :
      (j : OperationJournal) (o : JournalOperation)
      → find_operation o.operation_id j.operations ≡ none
      → o.sequence ≡ j.sequence_high_water + 1
      → o.sequence < u64_limit
      → o.phase ≡ not_committed
      → o.snapshot ≡ none
      → Change j (appended j o)
  binds :
      (j : OperationJournal) (id : Uuid) (o : JournalOperation) (b : SnapshotBinding)
      → find_operation id j.operations ≡ some o
      → o.snapshot ≡ none
      → (o.phase ≡ not_committed) ⊎ (o.phase ≡ durability_unknown)
      → Change j (with_operation id (record o { snapshot = some b }) j)
  moves :
      (j : OperationJournal) (id : Uuid) (o : JournalOperation) (p : OperationPhase)
      → find_operation id j.operations ≡ some o
      → can_transition_to o.phase p ≡ true
      → (phase_eq p committed && is_none o.snapshot) ≡ false
      → Change j (with_operation id (record o { phase = p }) j)

-- What a command leaves on disk if it does not change the memory.
abbrev pub DiskFollows : Externals → JournalStore → FileState → Type 0
DiskFollows x s file' =
    (file'.target ≡ s.file.target)
    ⊎ ((next : OperationJournal) × Change s.journal next
        × Holds x file' next
        × (journal_validate x next s.account_group_id ≡ ok tt))

-- What a command does to the file and to the coming answers: nothing, or one write with the next of
-- them.
abbrev pub Wrote : JournalStore → JournalStore → Type 0
Wrote s s' =
    ((s'.file ≡ s.file) × ((s'.faults ≡ s.faults) ⊎ (s'.faults ≡ later_faults s.faults)))
    ⊎ ((bytes : Bytes) × (verify : Bytes → FcpResult (Unit {0})) × (s'.file
          ≡ (write_verified_durable (next_faults s.faults) bytes verify s.file).1)
        × (s'.faults ≡ later_faults s.faults))

-- What a command does to the store: nothing that the memory shows, or one change that is valid and
-- on disk.
pub record Effect (x : Externals) (s s' : JournalStore) : Type 0 where
  pub same_group : s'.account_group_id ≡ s.account_group_id
  pub disk : Wrote s s'
  pub cases :
      ((s'.journal ≡ s.journal) × DiskFollows x s s'.file)
      ⊎ (Change s.journal s'.journal
          × (journal_validate x s'.journal s.account_group_id ≡ ok tt)
          × Holds x s'.file s'.journal)

abbrev is_closed : OperationPhase → Bool
is_closed p = not (phase_eq p not_committed) && not (phase_eq p durability_unknown)

module _ (x : Externals) where
  idle-Effect : (s : JournalStore) → Effect x s s
  idle-Effect s = record {
    same_group = refl;
    disk = inl (refl, inl refl);
    cases = inl (refl, inl refl);
  }

  settle_write_file :
      (f : Faults) (bytes : Bytes) (previous : Option Bytes) (next : OperationJournal)
      (s : JournalStore) (outcome : WriteOutcome)
      → let (r, s') = settle_write x f bytes previous next s outcome in
        (s'.file ≡ s.file) × (s'.faults ≡ s.faults)
  unfolding settle_write settle_unknown
  settle_write_file f bytes previous next s outcome = ground arith

  persist-Wrote : (next : OperationJournal) (s : JournalStore) → Wrote s (persist x next s).1
  unfolding persist write_journal
  persist-Wrote next s = elim (FcpResult-cases (journal_validate x next s.account_group_id)) [
    | inr (e, p) ↦ rw (p, persist) (inl (refl, inl refl))
    | inl (_, v) ↦ elim (FcpResult-cases (x.journal_json next)) [
      | inr (e, p) ↦ rw (v, p, persist) (inl (refl, inl refl))
      | inl (bytes, p) ↦ elim (FcpResult-cases (read_previous (next_faults s.faults) s.file)) [
        | inr (e, q) ↦ rw (v, p, q, persist) (inl (refl, inr refl))
        | inl (previous, q) ↦
            let (file, faults) =
              settle_write_file (next_faults s.faults) bytes previous next _
                (write_verified_durable (next_faults s.faults) bytes
                  (verify_persisted x s.account_group_id next) s.file).0 in
            rw (v, p, q, persist)
              (inr (bytes, verify_persisted x s.account_group_id next, file, faults))
      ]
    ]
  ]

  Persisted-Effect :
      (next : OperationJournal) (s : JournalStore) {r : FcpResult (Unit {0})} {s' : JournalStore}
      → Change s.journal next
      → Wrote s s'
      → Persisted x next s r s'
      → Effect x s s'
  Persisted-Effect next s c w (kept e file faults (inl p)) = record {
    same_group = refl;
    disk = w;
    cases = inl (refl, inl p);
  }
  Persisted-Effect next s c w (kept e file faults (inr (h, v))) = record {
    same_group = refl;
    disk = w;
    cases = inl (refl, inr (next, c, h, v));
  }
  Persisted-Effect next s c w (saved file faults v h) = record {
    same_group = refl;
    disk = w;
    cases = inr (c, v, h);
  }

  persist-Effect :
      (next : OperationJournal) (s : JournalStore)
      → Change s.journal next
      → Effect x s (persist x next s).1
  persist-Effect next s c =
      Persisted-Effect next s c (persist-Wrote next s) (persist-Persisted x next s)

  returning_state {ℓ} :
      {A : Type ℓ} (a : A) (p : FcpResult (Unit {0}) × JournalStore) → (returning a p).1 ≡ p.1
  returning_state a (ok _, s) = refl
  returning_state a (err e, s) = refl

  phase_open :
      (p : OperationPhase) → is_closed p ≡ false → (p ≡ not_committed) ⊎ (p ≡ durability_unknown)
  phase_open p h = ground arith

  pub bind_snapshot-Effect :
      (id : Uuid) (b : SnapshotBinding) (s : JournalStore) → Effect x s (bind_snapshot x id b s).1
  unfolding bind_snapshot operation
  bind_snapshot-Effect id b s = elim (Option-cases (find_operation id s.journal.operations)) [
    | inl e ↦ rw (e, bind_snapshot) (idle-Effect s)
    | inr (o, e) ↦ elim (Bool-cases (is_closed o.phase)) [
      | inl c ↦ rw (e, bind_snapshot, c) (idle-Effect s)
      | inr c ↦ elim (Option-cases o.snapshot) [
        | inl n ↦
            rw (e, bind_snapshot, c, n)
              (persist-Effect _ s (binds s.journal id o b e n (phase_open o.phase c)))
        | inr (existing, n) ↦ elim (Bool-cases (eqb SnapshotBinding-discrete existing b)) [
          | inl q ↦ rw (e, bind_snapshot, c, n, q) (idle-Effect s)
          | inr q ↦ rw (e, bind_snapshot, c, n, q) (idle-Effect s)
        ]
      ]
    ]
  ]

  pub transition-Effect :
      (id : Uuid) (p : OperationPhase) (s : JournalStore) → Effect x s (transition x id p s).1
  unfolding transition operation
  transition-Effect id p s = elim (Option-cases (find_operation id s.journal.operations)) [
    | inl e ↦ rw (e, transition) (idle-Effect s)
    | inr (o, e) ↦ elim (Bool-cases (phase_eq o.phase p)) [
      | inl a ↦ rw (e, transition, a) (idle-Effect s)
      | inr a ↦ elim (Bool-cases (can_transition_to o.phase p)) [
        | inr b ↦ rw (e, transition, a, b) (idle-Effect s)
        | inl b ↦ elim (Bool-cases (phase_eq p committed && is_none o.snapshot)) [
          | inl c ↦ rw (e, transition, a, b, c) (idle-Effect s)
          | inr c ↦ rw (e, transition, a, b, c) (persist-Effect _ s (moves s.journal id o p e b c))
        ]
      ]
    ]
  ]

  checked_suc-some : (n m : ℕ) → checked_suc n ≡ some m → (m ≡ n + 1) × (m < u64_limit)
  checked_suc-some n m h = ground arith

  pub begin-Effect : (r : OperationRequest) (s : JournalStore) → Effect x s (begin x r s).1
  unfolding begin operation
  begin-Effect r s = elim (FcpResult-cases (fingerprint x r s.account_group_id)) [
    | inr (e, p) ↦ rw (p, begin) (idle-Effect s)
    | inl (digest, p) ↦ elim (Option-cases (find_operation r.operation_id s.journal.operations)) [
      | inr (existing, q) ↦ elim (Bool-cases (bytes_eq existing.request_fingerprint digest)) [
        | inl c ↦ rw (p, begin, q, c) (idle-Effect s)
        | inr c ↦ rw (p, begin, q, c) (idle-Effect s)
      ]
      | inl q ↦ elim (Option-cases (checked_suc s.journal.sequence_high_water)) [
        | inl c ↦ rw (p, begin, q, c) (idle-Effect s)
        | inr (n, c) ↦
            let (above, below) = checked_suc-some s.journal.sequence_high_water n c in
            rw (p, begin, q, c, returning_state)
              (persist-Effect _ s
                (adds s.journal (operation_of r n digest) q above below refl refl))
      ]
    ]
  ]

  created_only_state : (p : FcpResult BeginResult × JournalStore) → (created_only p).1 ≡ p.1
  created_only_state (ok (created o), s) = refl
  created_only_state (ok (duplicate o), s) = refl
  created_only_state (err e, s) = refl

  pub issue-Effect :
      (new_id : Uuid) (kind : OperationKind) (lease_id : Option Uuid) (reason : Bytes) (base : ℕ)
      (s : JournalStore)
      → Effect x s (issue x new_id kind lease_id reason base s).1
  unfolding issue
  issue-Effect new_id kind lease_id reason base s = rw created_only_state (begin-Effect _ s)
