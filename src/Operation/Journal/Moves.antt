-- ===== src/Operation/Journal/Moves.antt =====
-- What a transition or a binding that succeeds has done to its operation.
use fursoy_vault.Prelude.{
  Uuid, is_none, Option, some, List, [], ◌∷◌, ◌≡◌, inl, inr, arith, ap, ◌∙◌, ◌&&◌, not, Bool-cases,
  Option-cases, eqb, eqb→eq,
}
use fursoy_vault.Error.{FcpResult, ok}
use fursoy_vault.Operation.Model.{
  OperationPhase, OperationPhase-discrete, not_committed, durability_unknown, committed, phase_eq,
  can_transition_to, SnapshotBinding, SnapshotBinding-discrete, JournalOperation, OperationJournal,
  Externals,
}
use fursoy_vault.Operation.Journal.{
  JournalStore, find_operation, replace_operation, operation, persist, transition, bind_snapshot,
}
use fursoy_vault.Operation.Journal.Persist.{Persisted, kept, saved, persist-Persisted}

-- The found operation has the id that was looked for.
pub found_id :
    (id : Uuid) (os : List JournalOperation) (o : JournalOperation)
    → find_operation id os ≡ some o
    → o.operation_id ≡ id
unfolding find_operation
found_id id [] o h = absurd (cc h)
found_id id (p ∷ os) o h = ground (arith, found_id id os o)

pub find-replace :
    (id : Uuid) (os : List JournalOperation) (o new : JournalOperation)
    → find_operation id os ≡ some o
    → new.operation_id ≡ id
    → find_operation id (replace_operation id new os) ≡ some new
unfolding find_operation replace_operation
find-replace id [] o new h e = absurd (cc h)
find-replace id (p ∷ os) o new h e = ground (arith, find-replace id os o new)

module _ (x : Externals) where
  pub persist-ok :
      (next : OperationJournal) (s s' : JournalStore)
      → persist x next s ≡ (ok tt, s')
      → s'.journal ≡ next
  persist-ok next s s' h = from (persist-Persisted x next s) h
    where
      from :
          {r : FcpResult (Unit {0})} {t : JournalStore}
          → Persisted x next s r t
          → ◌≡◌ {A = FcpResult (Unit {0}) × JournalStore} (r, t) (ok tt, s')
          → s'.journal ≡ next
      from (kept e file faults o) q = absurd (cc q)
      from (saved file faults v d) q = cc q

  -- The operation is there, in the phase asked for; nothing else of it has changed.
  pub transition-ok :
      (id : Uuid) (p : OperationPhase) (s s' : JournalStore)
      → transition x id p s ≡ (ok tt, s')
      → (o : JournalOperation) × (find_operation id s.journal.operations ≡ some o)
        × (find_operation id s'.journal.operations ≡ some (record o { phase = p }))
  unfolding transition operation
  transition-ok id p s s' h = elim (Option-cases (find_operation id s.journal.operations)) [
    | inl e ↦ absurd (cc (rw (e, transition) at h))
    | inr (o, e) ↦ elim (Bool-cases (phase_eq o.phase p)) [
      | inl a ↦
          let same : s ≡ s' = (let q = (rw (e, transition, a) at h) in cc q) in
          let reached : o.phase ≡ p = eqb→eq OperationPhase-discrete o.phase p a in
          (
            o,
            e,
            rw (← same, e) (ap some (ap (λ (q : OperationPhase). record o { phase = q }) reached)),
          )
      | inr a ↦ elim (Bool-cases (can_transition_to o.phase p)) [
        | inr b ↦ absurd (cc (rw (e, transition, a, b) at h))
        | inl b ↦ elim (Bool-cases (phase_eq p committed && is_none o.snapshot)) [
          | inl c ↦ absurd (cc (rw (e, transition, a, b, c) at h))
          | inr c ↦
              let j = persist-ok _ s s' (rw (e, transition, a, b, c) at h) in
              (
                o,
                e,
                rw j (
                    find-replace id s.journal.operations o (record o { phase = p }) e
                      (found_id id s.journal.operations o e)),
              )
        ]
      ]
    ]
  ]

  -- The operation is there, bound to the snapshot.
  pub bind_snapshot-ok :
      (id : Uuid) (b : SnapshotBinding) (s s' : JournalStore)
      → bind_snapshot x id b s ≡ (ok tt, s')
      → (o : JournalOperation) × (find_operation id s.journal.operations ≡ some o)
        × (find_operation id s'.journal.operations ≡ some (record o { snapshot = some b }))
  unfolding bind_snapshot operation
  bind_snapshot-ok id b s s' h = elim (Option-cases (find_operation id s.journal.operations)) [
    | inl e ↦ absurd (cc (rw (e, bind_snapshot) at h))
    | inr (o, e) ↦
        elim (Bool-cases
          (not (phase_eq o.phase not_committed) && not (phase_eq o.phase durability_unknown))) [
            | inl c ↦ absurd (cc (rw (e, bind_snapshot, c) at h))
            | inr c ↦ elim (Option-cases o.snapshot) [
              | inl n ↦
                  let j = persist-ok _ s s' (rw (e, bind_snapshot, c, n) at h) in
                  (
                    o,
                    e,
                    rw j (
                        find-replace id s.journal.operations o (record o { snapshot = some b }) e
                          (found_id id s.journal.operations o e)),
                  )
              | inr (existing, n) ↦ elim (Bool-cases (eqb SnapshotBinding-discrete existing b)) [
                | inr q ↦ absurd (cc (rw (e, bind_snapshot, c, n, q) at h))
                | inl q ↦
                    let same : s ≡ s' = (let q' = (rw (e, bind_snapshot, c, n, q) at h) in cc q') in
                    let bound : o.snapshot ≡ some b =
                      n ∙ ap some (eqb→eq SnapshotBinding-discrete existing b q) in
                    (
                      o,
                      e,
                      rw (← same, e)
                          (ap some
                            (ap (λ (z : Option SnapshotBinding). record o { snapshot = z }) bound)),
                    )
              ]
            ]
          ]
  ]
