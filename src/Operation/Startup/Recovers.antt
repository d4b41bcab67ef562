-- ===== src/Operation/Startup/Recovers.antt =====
-- What the recovery at the start of the host leaves.
use fursoy_vault.Prelude.{
  Uuid, is_none, true, false, Option, none, some, List, [], ◌∷◌, ◌≡◌, ◌⊎◌, inl, inr, refl, arith,
  not, ◌==◌, All, Bool-cases, Option-cases, ==_iff,
}
use mathlib.Core.Path.{subst}
use fursoy_vault.Error.{FcpError, FcpResult, FcpResult-cases, ok, err}
use fursoy_vault.AtomicFile.{FileState}
use fursoy_vault.Operation.Model.{
  OperationPhase, aborted, committed, browser_removal_pending, phase_eq, is_terminal,
  can_transition_to, JournalOperation, Externals,
}
use fursoy_vault.Operation.Journal.{JournalStore, find_operation, operation, transition, returning}
use fursoy_vault.Operation.Journal.Moves.{transition-ok}
use fursoy_vault.Operation.Journal.Steps.{transition-Effect}
use fursoy_vault.Operation.Journal.History.{
  ◌⟶*◌, here, then, Extends, Extends-refl, Extends-trans, Extends-find, Effect-Extends,
}
use fursoy_vault.Operation.Recovery.{
  RecoveryClassification, uncommitted, vault_committed, unreconciled, is_precommit, recovered_phase,
  classify_vault, recover_vault_phase,
}
use fursoy_vault.Operation.Recovery.Settles.{recovered_committed, recovered_unreconciled}
use fursoy_vault.Operation.Coordinator.{
  StartupRecovery, OperationCoordinator, active_ids, is_unresolved, updating, ◌>>-◌, >>--ok,
}
use fursoy_vault.Operation.Startup.{resolve, startup_round, startup_rounds, startup_recover}

-- The operation is there, and its phase says whether its vault write took effect.
abbrev pub Concluded : Uuid → JournalStore → Type 0
Concluded id s =
    (o : JournalOperation) × (find_operation id s.journal.operations ≡ some o)
    × (is_precommit o.phase ≡ false)

concluded_stays : {p q : OperationPhase} → p ⟶* q → is_precommit p ≡ false → is_precommit q ≡ false
unfolding can_transition_to
concluded_stays here h = h
concluded_stays (then {p = p} {q = q} e t) h = concluded_stays t (ground arith)

Concluded-later :
    (id : Uuid) (s s' : JournalStore)
    → Extends s.journal.operations s'.journal.operations
    → Concluded id s
    → Concluded id s'
Concluded-later id s s' e (o, f, p) =
    let (o', g, v) = Extends-find id s.journal.operations s'.journal.operations e f in
    (o', g, concluded_stays v.path p)

committed_phase :
    (p : OperationPhase) → (p ≡ committed) ⊎ (p ≡ browser_removal_pending) → is_precommit p ≡ false
committed_phase p (inl e) = ground arith
committed_phase p (inr e) = ground arith

pub carried {ℓ} :
    {A : Type 0} (P : JournalStore → Type ℓ) {r r' : FcpResult A} {s s' : JournalStore}
    → ◌≡◌ {A = FcpResult A × JournalStore} (r, s) (r', s')
    → P s
    → P s'
carried {A = A} P e = subst (λ (t : FcpResult A × JournalStore). P t.1) e

abbrev Rounds : JournalStore → Uuid → JournalStore → Type 0
Rounds s id s' = Extends s.journal.operations s'.journal.operations × Concluded id s'

resolved_phase : (p : OperationPhase) → not (is_terminal p) ≡ false → is_precommit p ≡ false
unfolding is_terminal
resolved_phase p h = ground arith

active-All {ℓ} :
    (P : Uuid → Type ℓ) (id : Uuid) (os : List JournalOperation) (o : JournalOperation)
    → All P (active_ids os)
    → find_operation id os ≡ some o
    → is_unresolved o ≡ true
    → P id
unfolding active_ids find_operation
active-All P id [] o ks f t = absurd (cc f)
active-All P id (p ∷ os) o ks f t = elim (Bool-cases (p.operation_id == id)) [
  | inl e ↦
      let same : p ≡ o = first (rw e at f) in
      let u : is_unresolved p ≡ true = rw same t in
      subst P ((==_iff p.operation_id id).0 e) (rw u at ks).0
  | inr e ↦ elim (Bool-cases (is_unresolved p)) [
    | inl u ↦ active-All P id os o (rw u at ks).1 (rw e at f) t
    | inr u ↦ active-All P id os o (rw u at ks) (rw e at f) t
  ]
]
  where
    first : some p ≡ some o → p ≡ o
    first h = cc

module _ (x : Externals) where
  pub transition-Extends :
      (id : Uuid) (p : OperationPhase) (s s' : JournalStore) (r : FcpResult (Unit {0}))
      → ◌≡◌ {A = FcpResult (Unit {0}) × JournalStore} (transition x id p s) (r, s')
      → Extends s.journal.operations s'.journal.operations
  transition-Extends id p s s' r h =
      subst
        (λ (t : FcpResult (Unit {0}) × JournalStore).
          Extends s.journal.operations t.1.journal.operations)
        h (Effect-Extends x s (transition x id p s).1 (transition-Effect x id p s))

  moved-Concluded :
      (id : Uuid) (p : OperationPhase) (s s' : JournalStore)
      → ◌≡◌ {A = FcpResult (Unit {0}) × JournalStore} (transition x id p s) (ok tt, s')
      → is_precommit p ≡ false
      → Concluded id s'
  moved-Concluded id p s s' h q =
      let (o, _, f) = transition-ok x id p s s' h in (record o { phase = p }, f, q)

  returning_state {ℓ} :
      {A : Type ℓ} (a : A) (p : FcpResult (Unit {0}) × JournalStore) → (returning a p).1 ≡ p.1
  returning_state a (ok _, s) = refl
  returning_state a (err e, s) = refl

  pub recover-Extends :
      (id : Uuid) (vault : FileState) (fault : Option FcpError) (s : JournalStore)
      → Extends s.journal.operations (recover_vault_phase x id vault fault s).1.journal.operations
  unfolding recover_vault_phase
  recover-Extends id vault fault s = elim (FcpResult-cases (classify_vault x id vault fault s)) [
    | inr (e, p) ↦ rw (p, recover_vault_phase) (Extends-refl s.journal.operations)
    | inl (c, p) ↦ elim (Option-cases (operation id s)) [
      | inl q ↦ rw (p, recover_vault_phase, q) (Extends-refl s.journal.operations)
      | inr (o, q) ↦ elim (Bool-cases (phase_eq o.phase (recovered_phase c o.phase))) [
        | inl t ↦ rw (p, recover_vault_phase, q, t) (Extends-refl s.journal.operations)
        | inr t ↦
            rw (p, recover_vault_phase, q, t, returning_state)
              (Effect-Extends x s _ (transition-Effect x id (recovered_phase c o.phase) s))
      ]
    ]
  ]

  module _ (vault : FileState) (fault : Uuid → Option FcpError) where
    resolve-Concluded :
        (id : Uuid) (r r' : StartupRecovery) (c : RecoveryClassification) (s t s' : JournalStore)
        → recover_vault_phase x id vault (fault id) s ≡ (ok c, t)
        → resolve x vault fault id r c t ≡ (ok r', s')
        → Rounds t id s'
    unfolding resolve
    resolve-Concluded id r r' uncommitted s t s' h q =
        let (_, t', m, q) = >>--ok (transition x id aborted t) _ r' s' q in
        carried (Rounds t id) q (
          transition-Extends id aborted t t' (ok tt) m,
          moved-Concluded id aborted t t' m (ground arith),
        )
    resolve-Concluded id r r' vault_committed s t s' h q =
        let (o, f, p) = recovered_committed x id vault (fault id) s t h in
        carried (Rounds t id) q
          (Extends-refl t.journal.operations, (o, f, committed_phase o.phase p))
    resolve-Concluded id r r' unreconciled s t s' h q =
        let (o, f, p) = recovered_unreconciled x id vault (fault id) s t h in
        carried (Rounds t id) q (Extends-refl t.journal.operations, (o, f, ground arith))

    startup_round-Concluded :
        (id : Uuid) (r r' : StartupRecovery) (s s' : JournalStore)
        → startup_round x vault fault id r s ≡ (ok r', s')
        → Rounds s id s'
    unfolding startup_round
    startup_round-Concluded id r r' s s' h = elim (Option-cases (operation id s)) [
      | inl e ↦ absurd (cc (rw (e, startup_round) at h))
      | inr (o, e) ↦ elim (Bool-cases (is_none o.snapshot)) [
        | inl n ↦ aborts (rw (e, startup_round, n) at h)
        | inr n ↦ recovers (rw (e, startup_round, n) at h)
      ]
    ]
      where
        marked : StartupRecovery
        marked = record r { needs_reconciliation = true }

        aborts :
            (transition x id aborted s >>- λ _ s.
            (ok (record r { needs_reconciliation = true }), s))
              ≡ (ok r', s')
            → Rounds s id s'
        aborts q =
            let (_, t, m, q) =
              >>--ok (transition x id aborted s)
                (λ _ s. (ok (record r { needs_reconciliation = true }), s)) r' s' q in
            carried (Rounds s id) q (
              transition-Extends id aborted s t (ok tt) m,
              moved-Concluded id aborted s t m (ground arith),
            )

        recovers :
            (recover_vault_phase x id vault (fault id) s
                >>- resolve x vault fault id (record r { needs_reconciliation = true }))
              ≡ (ok r', s')
            → Rounds s id s'
        recovers q =
            let (c, t, m, q) =
              >>--ok (recover_vault_phase x id vault (fault id) s)
                (resolve x vault fault id (record r { needs_reconciliation = true })) r' s' q in
            let (e, k) =
              resolve-Concluded id (record r { needs_reconciliation = true }) r' c s t s' m q in
            let first =
              carried (λ (t : JournalStore). Extends s.journal.operations t.journal.operations) m
                (recover-Extends id vault (fault id) s) in
            (
              Extends-trans s.journal.operations t.journal.operations s'.journal.operations first e,
              k,
            )

    startup_rounds-Concluded :
        (ids : List Uuid) (r r' : StartupRecovery) (s s' : JournalStore)
        → startup_rounds x vault fault ids r s ≡ (ok r', s')
        → Extends s.journal.operations s'.journal.operations × All (λ id. Concluded id s') ids
    unfolding startup_rounds
    startup_rounds-Concluded [] r r' s s' h =
        carried (λ (t : JournalStore). Extends s.journal.operations t.journal.operations × Unit {0})
          h (Extends-refl s.journal.operations, tt)
    startup_rounds-Concluded (id ∷ ids) r r' s s' h =
        let (r1, t, m, q) =
          >>--ok (startup_round x vault fault id r s) (startup_rounds x vault fault ids) r' s' h in
        let (e, k) = startup_round-Concluded id r r1 s t m in
        let (es, ks) = startup_rounds-Concluded ids r1 r' t s' q in
        (
          Extends-trans s.journal.operations t.journal.operations s'.journal.operations e es,
          (Concluded-later id t s' es k, ks),
        )

    -- A recovery at the start that returns has concluded every operation of the journal: it is still
    -- there, and its phase is neither `NotCommitted` nor `DurabilityUnknown`.
    pub startup_recover-Concluded :
        (c c' : OperationCoordinator) (r : StartupRecovery) (id : Uuid) (o : JournalOperation)
        → startup_recover x vault fault c ≡ (ok r, c')
        → find_operation id c.journal.journal.operations ≡ some o
        → Concluded id c'.journal
    unfolding startup_recover
    startup_recover-Concluded c c' r id o h f =
        let start : StartupRecovery = record {
          needs_reconciliation = false;
          committed_operation_id = none;
          committed_vault_sequence = none;
        } in
        let (e, ks) =
          startup_rounds-Concluded (active_ids c.journal.journal.operations) start r c.journal
            c'.journal
            (unwrapped
              (startup_rounds x vault fault (active_ids c.journal.journal.operations) start
                c.journal)
              h) in
        elim (Bool-cases (is_unresolved o)) [
          | inl t ↦
              active-All (λ id. Concluded id c'.journal) id c.journal.journal.operations o ks f t
          | inr t ↦ Concluded-later id c.journal c'.journal e (o, f, resolved_phase o.phase t)
        ]
      where
        unwrapped :
            (p : FcpResult StartupRecovery × JournalStore)
            → updating c p ≡ (ok r, c')
            → ◌≡◌ {A = FcpResult StartupRecovery × JournalStore} p (ok r, c'.journal)
        unwrapped (q, s) e = cc e
