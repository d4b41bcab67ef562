-- ===== src/Operation/Recovery/Settles.antt =====
-- What a recovery that succeeds leaves, and that it may be repeated.
use fursoy_vault.Prelude.{
  Bytes, Uuid, is_none, Bool, true, false, Option, none, some, ◌≡◌, ◌≢◌, ◌⊎◌, inl, inr, refl, arith,
  sym, ap, ◌∙◌, Bool-cases, eqb→eq, eqb_refl,
}
use mathlib.Core.Path.{subst}
use fursoy_vault.Error.{FcpError, FcpResult, FcpResult-cases, ok, err, >>=-eq-ok, ok_or}
use fursoy_vault.AtomicFile.{FileState, ObjectClassification, classify_object}
use fursoy_vault.AtomicFile.Outcomes.{Means, classify_object-Means}
use fursoy_vault.Operation.Model.{
  OperationPhase, OperationPhase-discrete, not_committed, durability_unknown, committed,
  browser_removal_pending, reconciliation_required, phase_eq, SnapshotBinding, JournalOperation,
  Externals,
}
use fursoy_vault.Operation.Journal.{JournalStore, find_operation, operation, returning, transition}
use fursoy_vault.Operation.Journal.Moves.{transition-ok}
use fursoy_vault.Operation.Recovery.{
  RecoveryClassification, uncommitted, vault_committed, unreconciled, is_precommit,
  classification_of, recovered_phase, classify_vault, recover_vault_phase,
}

-- The phases before the vault was written, and those that know of its write.
abbrev pub IsBefore : OperationPhase → Type 0
IsBefore p = (p ≡ not_committed) ⊎ (p ≡ durability_unknown)

abbrev pub IsPast : OperationPhase → Type 0
IsPast p = (p ≢ not_committed) × (p ≢ durability_unknown)

-- What the classification and the new phase say of the vault file, of the snapshot `b` of the operation
-- and of the phase `p` that it had: not committed is the old contents, or no file where there was none;
-- committed is the target; and all else, an unknown file among it, is to be reconciled.
abbrev pub Settled :
    Externals
    → FileState
    → SnapshotBinding
    → OperationPhase
    → RecoveryClassification
    → OperationPhase
    → Type 0
Settled x vault b p uncommitted p' =
    (p' ≡ not_committed)
    × IsBefore p
    × (Means x.sha256 vault b.previous_vault_digest b.target_vault_digest
          ObjectClassification.previous
        ⊎ ((vault.target ≡ none) × (b.previous_vault_digest ≡ none)))
Settled x vault b p vault_committed p' =
    ((p' ≡ committed) ⊎ ((p ≡ browser_removal_pending) × (p' ≡ browser_removal_pending)))
    × Means x.sha256 vault b.previous_vault_digest b.target_vault_digest ObjectClassification.target
Settled x vault b p unreconciled p' =
    (p' ≡ reconciliation_required)
    × (Means x.sha256 vault b.previous_vault_digest b.target_vault_digest
          ObjectClassification.neither
        ⊎ ((IsPast p
              × Means x.sha256 vault b.previous_vault_digest b.target_vault_digest
                  ObjectClassification.previous)
            ⊎ ((vault.target ≡ none) × (IsPast p ⊎ (b.previous_vault_digest ≢ none)))))

ok_or-some {ℓ} : {A : Type ℓ} (m : Option A) (e : FcpError) (a : A) → ok_or m e ≡ ok a → m ≡ some a
ok_or-some none e a h = absurd (cc h)
ok_or-some (some b) e a h = cc

returned {ℓ} :
    {A : Type ℓ} (a b : A) (p : FcpResult (Unit {0}) × JournalStore) (s' : JournalStore)
    → returning a p ≡ (ok b, s')
    → ◌≡◌ {A = FcpResult (Unit {0}) × JournalStore} p (ok tt, s') × (a ≡ b)
returned a b (ok _, s) s' h = (cc, cc)
returned a b (err e, s) s' h = absurd (cc h)

recovered_again :
    (c : RecoveryClassification) (p : OperationPhase)
    → recovered_phase c (recovered_phase c p) ≡ recovered_phase c p
unfolding recovered_phase
recovered_again uncommitted p = refl
recovered_again vault_committed p = ground arith
recovered_again unreconciled p = refl

classified_again :
    (object : ObjectClassification) (first : Bool) (p : OperationPhase)
    → let c = classification_of (is_precommit p) first object in
      classification_of (is_precommit (recovered_phase c p)) first object ≡ c
unfolding classification_of recovered_phase
classified_again ObjectClassification.previous first p = ground arith
classified_again ObjectClassification.target first p = refl
classified_again ObjectClassification.missing true p = ground arith
classified_again ObjectClassification.missing false p = ground arith
classified_again ObjectClassification.neither first p = refl

injected : {o p : JournalOperation} → some o ≡ some p → o ≡ p
injected h = cc

phase_settled :
    (p : OperationPhase)
    → (recovered_phase vault_committed p ≡ committed)
      ⊎ ((p ≡ browser_removal_pending)
          × (recovered_phase vault_committed p ≡ browser_removal_pending))
unfolding recovered_phase
phase_settled p = ground arith

before : (p : OperationPhase) → is_precommit p ≡ true → IsBefore p
before p h = ground arith

past : (p : OperationPhase) → is_precommit p ≡ false → IsPast p
past p h = (λ e. ground arith, λ e. ground arith)

is_none-eq : {A : Type 0} (m : Option A) → is_none m ≡ true → m ≡ none
is_none-eq none h = refl
is_none-eq (some a) h = absurd (cc h)

is_none-ne : {A : Type 0} (m : Option A) → is_none m ≡ false → m ≢ none
is_none-ne none h e = cc h
is_none-ne (some a) h e = cc e

classified-Settled :
    (x : Externals) (vault : FileState) (b : SnapshotBinding) (p : OperationPhase)
    (object : ObjectClassification)
    → Means x.sha256 vault b.previous_vault_digest b.target_vault_digest object
    → let c = classification_of (is_precommit p) (is_none b.previous_vault_digest) object in
      Settled x vault b p c (recovered_phase c p)
unfolding classification_of recovered_phase
classified-Settled x vault b p ObjectClassification.previous m =
    elim (Bool-cases (is_precommit p)) [
      | inl t ↦ rw t (refl, before p t, inl m)
      | inr t ↦ rw t (refl, inr (inl (past p t, m)))
    ]
classified-Settled x vault b p ObjectClassification.target m = (phase_settled p, m)
classified-Settled x vault b p ObjectClassification.missing m = elim (Bool-cases (is_precommit p)) [
  | inr t ↦ rw t (refl, inr (inr (m, inl (past p t))))
  | inl t ↦ elim (Bool-cases (is_none b.previous_vault_digest)) [
    | inl n ↦ rw (t, n) (refl, before p t, inr (m, is_none-eq b.previous_vault_digest n))
    | inr n ↦ rw (t, n) (refl, inr (inr (m, inr (is_none-ne b.previous_vault_digest n))))
  ]
]
classified-Settled x vault b p ObjectClassification.neither m = (refl, inl m)

reclassified :
    (object : ObjectClassification) (first : Bool) (p : OperationPhase) (c : RecoveryClassification)
    → classification_of (is_precommit p) first object ≡ c
    → classification_of (is_precommit (recovered_phase c p)) first object ≡ c
reclassified object first p c h =
    subst
      (λ (z : RecoveryClassification).
        classification_of (is_precommit (recovered_phase z p)) first object ≡ z)
      h (classified_again object first p)

module _ (x : Externals) (id : Uuid) (vault : FileState) where
  -- What `classify_vault` has read.
  record Classified (fault : Option FcpError) (s : JournalStore) (c : RecoveryClassification)
      : Type 0 where
    o : JournalOperation
    b : SnapshotBinding
    object : ObjectClassification
    found : operation id s ≡ some o
    bound : o.snapshot ≡ some b
    read :
        classify_object x.sha256 fault vault b.previous_vault_digest b.target_vault_digest
        ≡ ok object
    result : classification_of (is_precommit o.phase) (is_none b.previous_vault_digest) object ≡ c

  classify_vault-Classified :
      (fault : Option FcpError) (s : JournalStore) (c : RecoveryClassification)
      → classify_vault x id vault fault s ≡ ok c
      → Classified fault s c
  unfolding classify_vault
  classify_vault-Classified fault s c h =
      let (o, p, h) = >>=-eq-ok (ok_or (operation id s) _) _ h in
      let (b, q, h) = >>=-eq-ok (ok_or o.snapshot _) _ h in
      let (object, r, h) =
        >>=-eq-ok
          (classify_object x.sha256 fault vault b.previous_vault_digest b.target_vault_digest) _
          h in
      record {
        o = o;
        b = b;
        object = object;
        found = ok_or-some (operation id s) _ o p;
        bound = ok_or-some o.snapshot _ b q;
        read = r;
        result = cc;
      }

  -- What a recovery has done to its operation.
  Recovered : JournalStore → RecoveryClassification → JournalOperation → Type 0
  Recovered s' c o =
      find_operation id s'.journal.operations
      ≡ some (record o { phase = recovered_phase c o.phase })

  recover-Recovered :
      (fault : Option FcpError) (s s' : JournalStore) (c : RecoveryClassification)
      → recover_vault_phase x id vault fault s ≡ (ok c, s')
      → (k : Classified fault s c) × Recovered s' c k.o
  unfolding recover_vault_phase operation Recovered
  recover-Recovered fault s s' c h = elim (FcpResult-cases (classify_vault x id vault fault s)) [
    | inr (e, p) ↦ absurd (cc (rw (p, recover_vault_phase) at h))
    | inl (d, p) ↦ decided d p
  ]
    where
      decided :
          (d : RecoveryClassification)
          → classify_vault x id vault fault s ≡ ok d
          → (k : Classified fault s c) × Recovered s' c k.o
      decided d p =
          let k = classify_vault-Classified fault s d p in
          elim (Bool-cases (phase_eq k.o.phase (recovered_phase d k.o.phase))) [
            | inl t ↦ stays k t (rw (p, recover_vault_phase, k.found, t) at h)
            | inr t ↦ moves k (rw (p, recover_vault_phase, k.found, t) at h)
          ]
        where
          stays :
              (k : Classified fault s d)
              → phase_eq k.o.phase (recovered_phase d k.o.phase) ≡ true
              → ◌≡◌ {A = FcpResult RecoveryClassification × JournalStore} (ok d, s) (ok c, s')
              → (k : Classified fault s c) × Recovered s' c k.o
          stays k t q =
              let e : d ≡ c = cc q in
              let f : s ≡ s' = cc q in
              subst
                (λ (z : RecoveryClassification). (k : Classified fault s z) × Recovered s' z k.o) e
                (
                  k,
                  same f
                      ∙ k.found
                      ∙ ap some (
                          ap (λ (z : OperationPhase). record k.o { phase = z })
                            (eqb→eq OperationPhase-discrete _ _ t)),
                )
            where
              same :
                  s ≡ s'
                  → find_operation id s'.journal.operations ≡ find_operation id s.journal.operations
              same f = rw f refl

          moves :
              (k : Classified fault s d)
              → returning d (transition x id (recovered_phase d k.o.phase) s) ≡ (ok c, s')
              → (k : Classified fault s c) × Recovered s' c k.o
          moves k q =
              let (r, e) = returned d c (transition x id (recovered_phase d k.o.phase) s) s' q in
              let (o, found, after) = transition-ok x id (recovered_phase d k.o.phase) s s' r in
              let same : o ≡ k.o = injected (sym found ∙ k.found) in
              subst
                (λ (z : RecoveryClassification). (k : Classified fault s z) × Recovered s' z k.o) e
                (
                  k,
                  after
                      ∙ ap some (
                          ap
                            (λ (z : JournalOperation). record z {
                              phase = recovered_phase d k.o.phase;
                            })
                            same),
                )

  reread-ok :
      (fault : Option FcpError) (previous : Option Bytes) (target : Bytes)
      (object : ObjectClassification)
      → classify_object x.sha256 fault vault previous target ≡ ok object
      → classify_object x.sha256 none vault previous target ≡ ok object
  unfolding classify_object
  reread-ok none previous target object h = h
  reread-ok (some e) previous target object h = absurd (cc h)

  agrees :
      (fault : Option FcpError) (s : JournalStore) (c : RecoveryClassification)
      (k : Classified fault s c)
      → Settled x vault k.b k.o.phase c (recovered_phase c k.o.phase)
  agrees fault s c k =
      subst
        (λ (z : RecoveryClassification).
          Settled x vault k.b k.o.phase z (recovered_phase z k.o.phase))
        k.result
        (classified-Settled x vault k.b k.o.phase k.object (
          classify_object-Means x.sha256 fault vault k.b.previous_vault_digest
            k.b.target_vault_digest k.read))

  -- A recovery that succeeded may be repeated on the same vault file: it returns the same
  -- classification, and the store does not change.
  pub recover_vault_phase_again :
      (fault : Option FcpError) (s s' : JournalStore) (c : RecoveryClassification)
      → recover_vault_phase x id vault fault s ≡ (ok c, s')
      → recover_vault_phase x id vault none s' ≡ (ok c, s')
  unfolding recover_vault_phase operation Recovered
  recover_vault_phase_again fault s s' c h =
      let (k, r) = recover-Recovered fault s s' c h in
      let again : classify_vault x id vault none s' ≡ ok c =
        unfold classify_vault operation in
        rw (r, k.bound, reread-ok fault _ _ _ k.read)
          (ap ok (reclassified k.object _ k.o.phase c k.result)) in
      rw (again, recover_vault_phase, r, recovered_again c k.o.phase)
        (rw (eqb_refl OperationPhase-discrete (recovered_phase c k.o.phase)) refl)

  -- A recovery that succeeds has changed nothing of its operation but the phase, and the new phase
  -- agrees with the vault file. It is not committed where the operation was before the commit and the
  -- file has the previous digest, or is missing where there was none; committed, or still waiting for
  -- the browser, where the file has the target digest; and to be reconciled where the file has neither
  -- digest, or lost what an operation past its commit, or one with a previous vault, should have.
  pub recover_vault_phase-Settled :
      (fault : Option FcpError) (s s' : JournalStore) (c : RecoveryClassification)
      → recover_vault_phase x id vault fault s ≡ (ok c, s')
      → (o : JournalOperation) × (b : SnapshotBinding) × (p : OperationPhase) × (find_operation id
            s.journal.operations
          ≡ some o)
        × (o.snapshot ≡ some b)
        × (find_operation id s'.journal.operations ≡ some (record o { phase = p }))
        × Settled x vault b o.phase c p
  unfolding Recovered operation
  recover_vault_phase-Settled fault s s' c h =
      let (k, r) = recover-Recovered fault s s' c h in
      (k.o, k.b, recovered_phase c k.o.phase, k.found, k.bound, r, agrees fault s c k)

  pub recovered_committed :
      (fault : Option FcpError) (s s' : JournalStore)
      → recover_vault_phase x id vault fault s ≡ (ok vault_committed, s')
      → (o : JournalOperation) × (find_operation id s'.journal.operations ≡ some o)
        × ((o.phase ≡ committed) ⊎ (o.phase ≡ browser_removal_pending))
  recovered_committed fault s s' h =
      let (o, b, p, _, _, f, (phase, _)) =
        recover_vault_phase-Settled fault s s' vault_committed h in
      (record o { phase = p }, f, elim phase [ inl e ↦ inl e | inr (_, e) ↦ inr e ])

  pub recovered_unreconciled :
      (fault : Option FcpError) (s s' : JournalStore)
      → recover_vault_phase x id vault fault s ≡ (ok unreconciled, s')
      → (o : JournalOperation) × (find_operation id s'.journal.operations ≡ some o)
        × (o.phase ≡ reconciliation_required)
  recovered_unreconciled fault s s' h =
      let (o, b, p, _, _, f, (phase, _)) = recover_vault_phase-Settled fault s s' unreconciled h in
      (record o { phase = p }, f, phase)
