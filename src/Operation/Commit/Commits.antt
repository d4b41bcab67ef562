-- ===== src/Operation/Commit/Commits.antt =====
-- What a snapshot that is committed leaves in the journal.
use fursoy_vault.Prelude.{
  Bytes, Uuid, u64_limit, ℕ, Option, none, some, ◌≡◌, ◌≢◌, ◌⊎◌, inl, inr, refl, sym, ap, ◌∙◌, leb,
  length, Option-cases, Bool-cases,
}
use mathlib.Core.Path.{subst}
use fursoy_vault.Error.{FcpError, FcpResult, ok, err}
use fursoy_vault.AtomicFile
use fursoy_vault.AtomicFile.{Faults, WriteOutcome, success, failure}
use fursoy_vault.Operation.Model.{
  durability_unknown, committed, not_committed, browser_removal_pending, SnapshotBinding,
  JournalOperation, Externals,
}
use fursoy_vault.Operation.Journal.{
  JournalStore, find_operation, operation, bind_snapshot, transition,
}
use fursoy_vault.Operation.Journal.Moves.{transition-ok, bind_snapshot-ok}
use fursoy_vault.Operation.Journal.History.{Extends, Extends-find, kept_binding}
use fursoy_vault.Operation.Recovery.{
  RecoveryClassification, uncommitted, vault_committed, unreconciled, recover_vault_phase,
}
use fursoy_vault.Operation.Recovery.Settles.{recovered_committed}
use fursoy_vault.Operation.Startup.Recovers.{transition-Extends, recover-Extends, carried}
use fursoy_vault.Operation.Fingerprint.{tag}
use fursoy_vault.Operation.Coordinator.{OperationCoordinator, context_of, ◌>>-◌, >>--ok}
use fursoy_vault.Operation.Commit.{
  binding_of, recovered_result, placed, settle_commit, write_and_settle, bind_and_write,
  commit_snapshot,
}
use fursoy_vault.Vault.Format.{UuidBytes}
use fursoy_vault.Vault.Sealed.{VaultCrates}
use fursoy_vault.Vault.Store.{VaultFiles}
use fursoy_vault.Transaction.{PreparedVaultWrite, Platform, commit_prepared}

-- The operation is committed, or already waits for the browser, and it is bound to the snapshot.
abbrev pub IsCommitted : Uuid → SnapshotBinding → JournalStore → Type 0
IsCommitted id b s =
    (o : JournalOperation) × (find_operation id s.journal.operations ≡ some o)
    × ((o.phase ≡ committed) ⊎ (o.phase ≡ browser_removal_pending))
    × (o.snapshot ≡ some b)

abbrev Bound : Uuid → SnapshotBinding → JournalStore → Type 0
Bound id b s =
    (o : JournalOperation) × (find_operation id s.journal.operations ≡ some o)
    × (o.snapshot ≡ some b)

bound_is_some : {m : Option SnapshotBinding} (b : SnapshotBinding) → m ≡ some b → m ≢ none
bound_is_some b e n = cc

same_found :
    {o p : JournalOperation} (m : Option JournalOperation) → m ≡ some o → m ≡ some p → o ≡ p
same_found m e f = cc

Bound-Committed :
    (id : Uuid) (b : SnapshotBinding) (s s' : JournalStore) (o : JournalOperation)
    → Bound id b s
    → Extends s.journal.operations s'.journal.operations
    → find_operation id s'.journal.operations ≡ some o
    → (o.phase ≡ committed) ⊎ (o.phase ≡ browser_removal_pending)
    → IsCommitted id b s'
Bound-Committed id b s s' o (p, f, e) es g c =
    let (p', g', v) = Extends-find id s.journal.operations s'.journal.operations es f in
    let same = same_found (find_operation id s'.journal.operations) g' g in
    (
      o,
      g,
      c,
      ap (λ (z : JournalOperation). z.snapshot) (sym same) ∙ kept_binding v (bound_is_some b e) ∙ e,
    )

module _ {C : Type 0} (u : UuidBytes) (crates : VaultCrates C) (k : Platform) (x : Externals) where
  recovered_ok :
      (e : FcpError) (n m : ℕ) (c : RecoveryClassification)
      → recovered_result e n c ≡ ok m
      → (c ≡ vault_committed) × (n ≡ m)
  recovered_ok e n m uncommitted h = absurd (cc h)
  recovered_ok e n m vault_committed h = (refl, cc h)
  recovered_ok e n m unreconciled h = absurd (cc h)

  split_pair :
      {A : Type 0} {a a' : A} {s s' : JournalStore}
      → ◌≡◌ {A = A × JournalStore} (a, s) (a', s')
      → (a ≡ a') × (s ≡ s')
  split_pair h = (cc h, cc h)

  settle_commit-Committed :
      (id : Uuid) (fault : Option FcpError) (n m : ℕ) (b : SnapshotBinding) (outcome : WriteOutcome)
      (v : VaultFiles) (s s' : JournalStore)
      → Bound id b s
      → settle_commit u crates k x id fault n outcome v s ≡ (ok m, s')
      → (m ≡ n) × IsCommitted id b s'
  unfolding settle_commit
  settle_commit-Committed id fault n m b (success AtomicFile.committed) v s s' bound h =
      let (_, t, q, h) = >>--ok (transition x id committed s) _ m s' h in
      let (o, _, f) = transition-ok x id committed s t q in
      let (e, j) = split_pair h in
      (
        cc,
        subst (IsCommitted id b) j (
            Bound-Committed id b s t (record o { phase = committed }) bound
              (transition-Extends x id committed s t (ok tt) q) f (inl refl)),
      )
  settle_commit-Committed id fault n m b (success AtomicFile.not_committed) v s s' bound h =
      absurd (cc h)
  settle_commit-Committed id fault n m b (success AtomicFile.durability_unknown) v s s' bound h =
      absurd (cc h)
  settle_commit-Committed id fault n m b (failure AtomicFile.durability_unknown e) v s s' bound h =
      let (c, t, q, h) = >>--ok (recover_vault_phase x id v.file fault s) _ m s' h in
      let (r, j) = split_pair h in
      let (vc, nm) = recovered_ok e n m c r in
      let q' =
        subst
          (λ (z : RecoveryClassification).
            ◌≡◌ {A = FcpResult RecoveryClassification × JournalStore}
              (recover_vault_phase x id v.file fault s) (ok z, t))
          vc q in
      let (o, f, p) = recovered_committed x id v.file fault s t q' in
      let es =
        carried (λ (t : JournalStore). Extends s.journal.operations t.journal.operations) q
          (recover-Extends x id v.file fault s) in
      (sym nm, subst (IsCommitted id b) j (Bound-Committed id b s t o bound es f p))
  settle_commit-Committed id fault n m b (failure AtomicFile.not_committed e) v s s' bound h =
      let (_, t, q, h) = >>--ok (transition x id not_committed s) _ m s' h in absurd (cc h)
  settle_commit-Committed id fault n m b (failure AtomicFile.committed e) v s s' bound h =
      let (_, t, q, h) = >>--ok (transition x id not_committed s) _ m s' h in absurd (cc h)

  placed-ok :
      (c c' : OperationCoordinator) (v v' : VaultFiles) (m : ℕ) (q : FcpResult ℕ × JournalStore)
      → placed c v q ≡ (ok m, c', v')
      → q ≡ (ok m, c'.journal)
  placed-ok c c' v v' m (r, s) h = cc h

  settled-Committed :
      (id : Uuid) (faults : Faults) (fault : Option FcpError) (p : PreparedVaultWrite)
      (b : SnapshotBinding) (v v' : VaultFiles) (c c' : OperationCoordinator) (m : ℕ)
      (s : JournalStore)
      → Bound id b s
      → write_and_settle u crates k x id faults fault p v c (ok tt, s) ≡ (ok m, c', v')
      → (m ≡ p.vault_sequence) × IsCommitted id b c'.journal
  unfolding write_and_settle
  settled-Committed id faults fault p b v v' c c' m s bound h =
      let (outcome, w) = commit_prepared u crates k p.group_id faults p v in
      settle_commit-Committed id fault p.vault_sequence m b outcome w s c'.journal bound
        (placed-ok c c' w v' m (settle_commit u crates k x id fault p.vault_sequence outcome w s) h)

  -- The binding and the transition to `DurabilityUnknown` both succeeded.
  prepared-Bound :
      (id : Uuid) (b : SnapshotBinding) (s t : JournalStore)
      → (bind_snapshot x id b s >>- λ _. transition x id durability_unknown) ≡ (ok tt, t)
      → Bound id b t
  prepared-Bound id b s t h =
      let (_, r, q, h) =
        >>--ok (bind_snapshot x id b s) (λ _. transition x id durability_unknown) tt t h in
      let (o, _, f) = bind_snapshot-ok x id b s r q in
      let (o', g, f') = transition-ok x id durability_unknown r t h in
      let same = same_found (find_operation id r.journal.operations) f g in
      (
        record o' { phase = durability_unknown },
        f',
        ap (λ (z : JournalOperation). z.snapshot) (sym same),
      )

  bind_and_write-Committed :
      (id : Uuid) (snapshot_tag : Bytes) (count bytes : ℕ) (faults : Faults)
      (fault : Option FcpError) (p : PreparedVaultWrite) (v v' : VaultFiles)
      (c c' : OperationCoordinator) (m : ℕ)
      → bind_and_write u crates k x id snapshot_tag count bytes faults fault p v c ≡ (ok m, c', v')
      → (m ≡ p.vault_sequence) × IsCommitted id (binding_of snapshot_tag count bytes p) c'.journal
  unfolding bind_and_write write_and_settle
  bind_and_write-Committed id snapshot_tag count bytes faults fault p v v' c c' m h =
      go
        (bind_snapshot x id (binding_of snapshot_tag count bytes p) c.journal >>- λ _.
          transition x id durability_unknown)
        refl h
    where
      go :
          (q : FcpResult (Unit {0}) × JournalStore)
          → (bind_snapshot x id (binding_of snapshot_tag count bytes p) c.journal >>- λ _.
              transition x id durability_unknown)
            ≡ q
          → write_and_settle u crates k x id faults fault p v c q ≡ (ok m, c', v')
          → (m ≡ p.vault_sequence)
            × IsCommitted id (binding_of snapshot_tag count bytes p) c'.journal
      go (ok _, t) e h =
          settled-Committed id faults fault p (binding_of snapshot_tag count bytes p) v v' c c' m t
            (prepared-Bound id (binding_of snapshot_tag count bytes p) c.journal t e) h
      go (err f, t) e h = absurd (cc h)

  -- A snapshot whose commit returns a sequence, which is that of the prepared write: whatever the
  -- operating system answered, the operation is committed or waits for the browser, and it is bound
  -- to the tag of the snapshot under the profile and to the digests of the prepared write.
  pub commit_snapshot-Committed :
      (id : Uuid) (snapshot : Bytes) (count : ℕ) (p : PreparedVaultWrite) (faults : Faults)
      (fault : Option FcpError) (v v' : VaultFiles) (c c' : OperationCoordinator) (m : ℕ)
      → commit_snapshot u crates k x id snapshot count p faults fault v c ≡ (ok m, c', v')
      → (m ≡ p.vault_sequence)
        × ((o : JournalOperation) × (profile_id : Uuid) × (operation id c.journal ≡ some o)
            × (c.profile_id ≡ some profile_id)
            × IsCommitted id
                (binding_of
                  (tag x.sha256 u c.key (context_of x profile_id id o c) snapshot)
                  count
                  (length snapshot)
                  p)
                c'.journal)
  unfolding commit_snapshot
  commit_snapshot-Committed id snapshot count p faults fault v v' c c' m h =
      elim (Option-cases (operation id c.journal)) [
        | inl e ↦ absurd (cc (rw (e, commit_snapshot) at h))
        | inr (o, e) ↦ elim (Option-cases c.profile_id) [
          | inl f ↦ absurd (cc (rw (e, commit_snapshot, f) at h))
          | inr (profile_id, f) ↦ elim (Bool-cases (leb u64_limit (length snapshot))) [
            | inl t ↦ absurd (cc (rw (e, commit_snapshot, f, t) at h))
            | inr t ↦
                let (n, k) =
                  bind_and_write-Committed id _ count (length snapshot) faults fault p v v' c c' m
                    (rw (e, commit_snapshot, f, t) at h) in
                (n, (o, profile_id, e, f, k))
          ]
        ]
      ]
