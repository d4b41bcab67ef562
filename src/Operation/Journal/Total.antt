-- ===== src/Operation/Journal/Total.antt =====
-- What the commands return where the disk answers.
use fursoy_vault.Prelude.{
  checked_suc, u64_limit, Uuid, is_none, Bytes, ℕ, ◌+◌, ◌<◌, true, false, Option, none, some, ◌≡◌,
  ◌≢◌, ◌⊎◌, ◌↔◌, inl, inr, refl, arith, ap, Bool-cases, Option-cases, eqb→eq, eqb_refl, eqb→ne,
  ◌&&◌,
}
use fursoy_vault.Error.{FcpResult, ok}
use fursoy_vault.AtomicFile.{settled, next_faults, later_faults}
use fursoy_vault.AtomicFile.Outcomes.{IsQuiet, write_verified_durable_total}
use fursoy_vault.Operation.Model.{
  OperationPhase, OperationPhase-discrete, committed, not_committed, phase_eq, can_transition_to,
  OperationRequest, request_validate, JournalOperation, OperationJournal, OperationJournal-discrete,
  Externals, fingerprint, journal_validate, needs_snapshot,
}
use fursoy_vault.Operation.Model.Validity.{IsValid, IsSound, IsValid-journal_validate}
use fursoy_vault.Operation.Journal.{
  JournalStore, find_operation, operation, with_operation, appended, operation_of, created,
  verify_persisted, write_journal, settle_write, persist, begin, transition, read_previous,
}
use fursoy_vault.Operation.Journal.Persist.{Holds}
use fursoy_vault.Operation.Journal.Preserves.{moved-IsValid, appended-IsValid}

-- What serde_json promises of a journal: it is encoded, and the bytes decode to it again.
abbrev pub IsEncodable : Externals → OperationJournal → Type 0
IsEncodable x j = (b : Bytes) × (x.journal_json j ≡ ok b) × (x.journal_of_json b ≡ ok j)

-- A valid journal over a disk on which the next write succeeds.
pub record IsHealthy (x : Externals) (s : JournalStore) : Type 0 where
  pub valid : IsValid x s.account_group_id s.journal
  pub quiet : IsQuiet (next_faults s.faults)
  pub clear : s.file.temporary ≡ none

-- An encoded request was validated, so that its id is not nil.
fingerprint-id :
    (x : Externals) (r : OperationRequest) (group : Uuid) (digest : Bytes)
    → fingerprint x r group ≡ ok digest
    → r.operation_id ≢ 0
unfolding fingerprint request_validate
fingerprint-id x r group digest h e = ground arith

unsent : needs_snapshot not_committed ≡ false
unfolding needs_snapshot
unsent = refl

checked_suc_total : (n : ℕ) → n + 1 < u64_limit → checked_suc n ≡ some (n + 1)
checked_suc_total n h = ground arith

module _ (x : Externals) where
  verify_persisted_total :
      (next : OperationJournal) (group : Uuid) (b : Bytes)
      → x.journal_of_json b ≡ ok next
      → journal_validate x next group ≡ ok tt
      → verify_persisted x group next b ≡ ok tt
  unfolding verify_persisted
  verify_persisted_total next group b d v = rw (d, v, eqb_refl OperationJournal-discrete next)

  write_journal_total :
      (next : OperationJournal) (s : JournalStore) (b : Bytes) (previous : Option Bytes)
      → x.journal_of_json b ≡ ok next
      → journal_validate x next s.account_group_id ≡ ok tt
      → IsQuiet (next_faults s.faults)
      → s.file.temporary ≡ none
      → write_journal x b previous next s ≡ (
        ok tt,
        record s { file = settled (some b); faults = later_faults s.faults; journal = next },
      )
  unfolding write_journal settle_write
  write_journal_total next s b previous d v q t = rw (
      write_verified_durable_total (next_faults s.faults) b
        (verify_persisted x s.account_group_id next) s.file q t
        (verify_persisted_total next s.account_group_id b d v))

  read_previous_total :
      (s : JournalStore)
      → IsQuiet (next_faults s.faults)
      → (p : Option Bytes) × (read_previous (next_faults s.faults) s.file ≡ ok p)
  read_previous_total s q = elim (Option-cases s.file.target) [
    | inl e ↦ (none, ground arith)
    | inr (b, e) ↦ (some b, ground arith)
  ]

  pub persist_total :
      (next : OperationJournal) (s : JournalStore)
      → journal_validate x next s.account_group_id ≡ ok tt
      → IsHealthy x s
      → IsEncodable x next
      → (b : Bytes) × (persist x next s ≡ (
        ok tt,
        record s { file = settled (some b); faults = later_faults s.faults; journal = next },
      ))
        × (x.journal_of_json b ≡ ok next)
  unfolding persist
  persist_total next s v h (b, e, d) =
      let (p, q) = read_previous_total s h.quiet in
      (b, rw (v, e, q, persist) (write_journal_total next s b p d v h.quiet h.clear), d)

  moved :
      (id : Uuid) (p : OperationPhase) (s : JournalStore) (o : JournalOperation)
      → IsHealthy x s
      → find_operation id s.journal.operations ≡ some o
      → can_transition_to o.phase p ≡ true
      → (phase_eq p committed && is_none o.snapshot) ≡ false
      → IsEncodable x (with_operation id (record o { phase = p }) s.journal)
      → (persist x (with_operation id (record o { phase = p }) s.journal) s).0 ≡ ok tt
  moved id p s o h f e c n =
      ap (λ (r : FcpResult (Unit {0}) × JournalStore). r.0)
        (persist_total (with_operation id (record o { phase = p }) s.journal) s
          (IsValid-journal_validate x _ s.account_group_id
            (moved-IsValid x s.account_group_id id s.journal o p f e c h.valid))
          h n).1

  -- On a healthy store a transition of a recorded operation succeeds exactly where the phase is
  -- reached already, or the table has the edge and a commit finds a snapshot binding.
  pub transition_iff :
      (id : Uuid) (p : OperationPhase) (s : JournalStore) (o : JournalOperation)
      → IsHealthy x s
      → find_operation id s.journal.operations ≡ some o
      → IsEncodable x (with_operation id (record o { phase = p }) s.journal)
      → ((transition x id p s).0 ≡ ok tt) ↔ (
          (o.phase ≡ p)
          ⊎ ((can_transition_to o.phase p ≡ true)
              × ((phase_eq p committed && is_none o.snapshot) ≡ false)))
  unfolding transition operation
  transition_iff id p s o h f n = elim (Bool-cases (phase_eq o.phase p)) [
    | inl a ↦
        rw (f, transition, a) ((λ _. inl (eqb→eq OperationPhase-discrete o.phase p a)), (λ _. refl))
    | inr a ↦ elim (Bool-cases (can_transition_to o.phase p)) [
      | inr b ↦
          rw (f, transition, a, b)
            (
              (λ q. absurd (cc q)),
              (λ q. elim q [
                | inl e ↦ absurd (eqb→ne OperationPhase-discrete o.phase p a e)
                | inr r ↦ absurd (cc r.0)
              ]),
            )
      | inl b ↦ elim (Bool-cases (phase_eq p committed && is_none o.snapshot)) [
        | inl c ↦
            rw (f, transition, a, b, c)
              (
                (λ q. absurd (cc q)),
                (λ q. elim q [
                  | inl e ↦ absurd (eqb→ne OperationPhase-discrete o.phase p a e)
                  | inr r ↦ absurd (cc r.1)
                ]),
              )
        | inr c ↦
            rw (f, transition, a, b, c) ((λ _. inr (refl, refl)), (λ _. moved id p s o h f b c n))
      ]
    ]
  ]

  -- On a healthy store a request with an unused id, whose fingerprint can be computed, is recorded
  -- with the next sequence, in memory and on disk, unless the sequence would pass a u64.
  pub begin_total :
      (r : OperationRequest) (s : JournalStore) (digest : Bytes)
      → IsHealthy x s
      → fingerprint x r s.account_group_id ≡ ok digest
      → find_operation r.operation_id s.journal.operations ≡ none
      → s.journal.sequence_high_water + 1 < u64_limit
      → IsEncodable x
          (appended s.journal (operation_of r (s.journal.sequence_high_water + 1) digest))
      → let o = operation_of r (s.journal.sequence_high_water + 1) digest in
        (s' : JournalStore) × (begin x r s ≡ (ok (created o), s'))
        × (s'.journal ≡ appended s.journal o)
        × Holds x s'.file s'.journal
  unfolding begin operation
  begin_total r s digest h d f l n =
      let o = operation_of r (s.journal.sequence_high_water + 1) digest in
      let sound : IsSound x s.account_group_id o = record {
        id_set = fingerprint-id x r s.account_group_id digest d;
        bound = d;
        snapshot_kept = inl unsent;
      } in
      let (b, e, q) =
        persist_total (appended s.journal o) s
          (IsValid-journal_validate x _ s.account_group_id
            (appended-IsValid x s.account_group_id s.journal o f refl sound h.valid))
          h n in
      (
        record s {
          file = settled (some b);
          faults = later_faults s.faults;
          journal = appended s.journal o;
        },
        rw (d, begin, f, checked_suc_total s.journal.sequence_high_water l, e),
        refl,
        (b, refl, q),
      )
