-- ===== src/Operation/Journal/Preserves.antt =====
-- Each change that the commands make keeps the invariant of the journal, so that the check in
-- `persist` never refuses one.
use fursoy_vault.Prelude.{
  Uuid, is_none, ℕ, ◌+◌, ◌<◌, Bool, true, false, none, some, List, [], ◌∷◌, ◌++◌, ◌≡◌, ◌≢◌, ◌⊎◌,
  ◌&&◌, inl, inr, refl, arith, sym, ap, ◌∙◌, Bool-cases, ◌==◌,
}
use mathlib.Core.Path.{subst}
use fursoy_vault.Operation.Model.{
  OperationPhase, committed, phase_eq, needs_snapshot, can_transition_to, SnapshotBinding,
  JournalOperation, OperationJournal, Externals,
}
use fursoy_vault.Operation.Model.Validity.{
  IsValid, IsSound, AllSound, Increasing, last_sequence, Unlike, Distinct,
}
use fursoy_vault.Operation.Journal.{find_operation, replace_operation, with_operation, appended}

found : {p o : JournalOperation} → some p ≡ some o → p ≡ o
found h = cc

-- A write through the reference keeps what it does not touch.
module _ (id : Uuid) (o new : JournalOperation) (same_id : new.operation_id ≡ o.operation_id)
    (same_sequence : new.sequence ≡ o.sequence) where
  Increasing-replace :
      (previous : ℕ) (os : List JournalOperation)
      → find_operation id os ≡ some o
      → Increasing previous os
      → Increasing previous (replace_operation id new os)
  unfolding find_operation replace_operation
  Increasing-replace previous [] f h = tt
  Increasing-replace previous (p ∷ os) f h = elim (Bool-cases (p.operation_id == id)) [
    | inl t ↦
        let e : new.sequence ≡ p.sequence =
          same_sequence ∙ ap (λ (a : JournalOperation). a.sequence) (sym (found (rw t at f))) in
        rw (t, e) h
    | inr t ↦ rw t (h.0, Increasing-replace p.sequence os (rw t at f) h.1)
  ]

  last_sequence-replace :
      (previous : ℕ) (os : List JournalOperation)
      → find_operation id os ≡ some o
      → last_sequence previous (replace_operation id new os) ≡ last_sequence previous os
  unfolding find_operation replace_operation
  last_sequence-replace previous [] f = refl
  last_sequence-replace previous (p ∷ os) f = elim (Bool-cases (p.operation_id == id)) [
    | inl t ↦
        let e : new.sequence ≡ p.sequence =
          same_sequence ∙ ap (λ (a : JournalOperation). a.sequence) (sym (found (rw t at f))) in
        rw (t, e)
    | inr t ↦ rw t (last_sequence-replace p.sequence os (rw t at f))
  ]

  Unlike-replace :
      (other : Uuid) (os : List JournalOperation)
      → find_operation id os ≡ some o
      → Unlike other os
      → Unlike other (replace_operation id new os)
  unfolding find_operation replace_operation
  Unlike-replace other [] f h = tt
  Unlike-replace other (p ∷ os) f h = elim (Bool-cases (p.operation_id == id)) [
    | inl t ↦
        let e : new.operation_id ≡ p.operation_id =
          same_id ∙ ap (λ (a : JournalOperation). a.operation_id) (sym (found (rw t at f))) in
        rw (t, e) h
    | inr t ↦ rw t (h.0, Unlike-replace other os (rw t at f) h.1)
  ]

  Distinct-replace :
      (os : List JournalOperation)
      → find_operation id os ≡ some o
      → Distinct os
      → Distinct (replace_operation id new os)
  unfolding find_operation replace_operation
  Distinct-replace [] f h = tt
  Distinct-replace (p ∷ os) f h = elim (Bool-cases (p.operation_id == id)) [
    | inl t ↦
        let e : new.operation_id ≡ p.operation_id =
          same_id ∙ ap (λ (a : JournalOperation). a.operation_id) (sym (found (rw t at f))) in
        rw (t, e) h
    | inr t ↦
        rw t (Unlike-replace p.operation_id os (rw t at f) h.0, Distinct-replace os (rw t at f) h.1)
  ]

AllSound-find :
    (x : Externals) (group id : Uuid) (os : List JournalOperation) {o : JournalOperation}
    → find_operation id os ≡ some o
    → AllSound x group os
    → IsSound x group o
unfolding find_operation
AllSound-find x group id [] f h = absurd (cc f)
AllSound-find x group id (p ∷ os) f h = elim (Bool-cases (p.operation_id == id)) [
  | inl t ↦ subst (IsSound x group) (found (rw t at f)) h.0
  | inr t ↦ AllSound-find x group id os (rw t at f) h.1
]

AllSound-replace :
    (x : Externals) (group id : Uuid) (new : JournalOperation) (os : List JournalOperation)
    → IsSound x group new
    → AllSound x group os
    → AllSound x group (replace_operation id new os)
unfolding replace_operation
AllSound-replace x group id new [] n h = tt
AllSound-replace x group id new (p ∷ os) n h = elim (Bool-cases (p.operation_id == id)) [
  | inl t ↦ rw t (n, h.1)
  | inr t ↦ rw t (h.0, AllSound-replace x group id new os n h.1)
]

-- A journal in which one operation is overwritten by a sound one with its id and its sequence is
-- valid again.
with_operation-IsValid :
    (x : Externals) (group id : Uuid) (j : OperationJournal) (o new : JournalOperation)
    → new.operation_id ≡ o.operation_id
    → new.sequence ≡ o.sequence
    → find_operation id j.operations ≡ some o
    → IsSound x group new
    → IsValid x group j
    → IsValid x group (with_operation id new j)
with_operation-IsValid x group id j o new i s f n v = record {
  version_known = v.version_known;
  group_matches = v.group_matches;
  increasing = Increasing-replace id o new i s 0 j.operations f v.increasing;
  high_water = last_sequence-replace id o new i s 0 j.operations f ∙ v.high_water;
  distinct = Distinct-replace id o new i s j.operations f v.distinct;
  sound = AllSound-replace x group id new j.operations n v.sound;
}

needs_snapshot_step :
    (p q : OperationPhase) {o : Bool}
    → can_transition_to p q ≡ true
    → (needs_snapshot p ≡ false) ⊎ (o ≡ false)
    → (phase_eq q committed && o) ≡ false
    → (needs_snapshot q ≡ false) ⊎ (o ≡ false)
unfolding can_transition_to needs_snapshot
needs_snapshot_step p q {o} e h c = ground arith

-- A phase that follows the table, with a snapshot binding where it commits, keeps the invariant.
pub moved-IsValid :
    (x : Externals) (group id : Uuid) (j : OperationJournal) (o : JournalOperation)
    (p : OperationPhase)
    → find_operation id j.operations ≡ some o
    → can_transition_to o.phase p ≡ true
    → (phase_eq p committed && is_none o.snapshot) ≡ false
    → IsValid x group j
    → IsValid x group (with_operation id (record o { phase = p }) j)
moved-IsValid x group id j o p f e c v =
    let s = AllSound-find x group id j.operations f v.sound in
    with_operation-IsValid x group id j o (record o { phase = p }) refl refl f
      (record {
        id_set = s.id_set;
        bound = s.bound;
        snapshot_kept = needs_snapshot_step o.phase p e s.snapshot_kept c;
      })
      v

-- So does a first snapshot binding.
pub bound-IsValid :
    (x : Externals) (group id : Uuid) (j : OperationJournal) (o : JournalOperation)
    (b : SnapshotBinding)
    → find_operation id j.operations ≡ some o
    → IsValid x group j
    → IsValid x group (with_operation id (record o { snapshot = some b }) j)
bound-IsValid x group id j o b f v =
    let s = AllSound-find x group id j.operations f v.sound in
    with_operation-IsValid x group id j o (record o { snapshot = some b }) refl refl f
      (record { id_set = s.id_set; bound = s.bound; snapshot_kept = inr refl }) v

Increasing-append :
    (previous : ℕ) (os : List JournalOperation) (o : JournalOperation)
    → Increasing previous os
    → last_sequence previous os < o.sequence
    → Increasing previous (os ++ (o ∷ []))
Increasing-append previous [] o h l = (l, tt)
Increasing-append previous (p ∷ os) o h l = (h.0, Increasing-append p.sequence os o h.1 l)

last_sequence-append :
    (previous : ℕ) (os : List JournalOperation) (o : JournalOperation)
    → last_sequence previous (os ++ (o ∷ [])) ≡ o.sequence
last_sequence-append previous [] o = refl
last_sequence-append previous (p ∷ os) o = last_sequence-append p.sequence os o

Unlike-append :
    (id : Uuid) (os : List JournalOperation) (o : JournalOperation)
    → Unlike id os
    → id ≢ o.operation_id
    → Unlike id (os ++ (o ∷ []))
Unlike-append id [] o h n = (n, tt)
Unlike-append id (p ∷ os) o h n = (h.0, Unlike-append id os o h.1 n)

Distinct-append :
    (os : List JournalOperation) (o : JournalOperation)
    → Distinct os
    → find_operation o.operation_id os ≡ none
    → Distinct (os ++ (o ∷ []))
unfolding find_operation
Distinct-append [] o h f = (tt, tt)
Distinct-append (p ∷ os) o h f = elim (Bool-cases (p.operation_id == o.operation_id)) [
  | inl t ↦ absurd (cc (rw t at f))
  | inr t ↦
      (Unlike-append p.operation_id os o h.0 (ground arith), Distinct-append os o h.1 (rw t at f))
]

AllSound-append :
    (x : Externals) (group : Uuid) (os : List JournalOperation) (o : JournalOperation)
    → AllSound x group os
    → IsSound x group o
    → AllSound x group (os ++ (o ∷ []))
AllSound-append x group [] o h n = (n, tt)
AllSound-append x group (p ∷ os) o h n = (h.0, AllSound-append x group os o h.1 n)

-- So does a new operation with an unused id and the next sequence.
pub appended-IsValid :
    (x : Externals) (group : Uuid) (j : OperationJournal) (o : JournalOperation)
    → find_operation o.operation_id j.operations ≡ none
    → o.sequence ≡ j.sequence_high_water + 1
    → IsSound x group o
    → IsValid x group j
    → IsValid x group (appended j o)
appended-IsValid x group j o f s n v = record {
  version_known = v.version_known;
  group_matches = v.group_matches;
  increasing = Increasing-append 0 j.operations o v.increasing (omega (arith, v.high_water));
  high_water = last_sequence-append 0 j.operations o;
  distinct = Distinct-append j.operations o v.distinct f;
  sound = AllSound-append x group j.operations o v.sound n;
}
