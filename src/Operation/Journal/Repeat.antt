-- ===== src/Operation/Journal/Repeat.antt =====
-- What a repeated request returns.
use fursoy_vault.Prelude.{
  checked_suc, Uuid, Bytes, bytes_eq, Bytes-discrete, ℕ, false, none, some, List, [], ◌∷◌, ◌++◌,
  ◌≡◌, ◌≢◌, inl, inr, refl, arith, sym, Bool-cases, Option-cases, eqb→eq, eqb_refl,
}
use fursoy_vault.Error.{FcpResult, FcpResult-cases, ok, err, protocol, operation_id_reused}
use fursoy_vault.Operation.Model.{
  OperationRequest, JournalOperation, OperationJournal, Externals, fingerprint,
}
use fursoy_vault.Operation.Journal.{
  JournalStore, find_operation, operation, appended, operation_of, returning, created, duplicate,
  persist, begin,
}
use fursoy_vault.Operation.Journal.Persist.{Persisted, kept, saved, persist-Persisted}

created-injective : {a b : JournalOperation} → created a ≡ created b → a ≡ b
created-injective h = cc

module _ (x : Externals) where
  persisted :
      (next : OperationJournal) (s : JournalStore) {r : FcpResult (Unit {0})} {s' : JournalStore}
      → r ≡ ok tt
      → Persisted x next s r s'
      → (s'.journal ≡ next) × (s'.account_group_id ≡ s.account_group_id)
  persisted next s e (kept e' file faults o) = absurd (cc e)
  persisted next s e (saved file faults v h) = (refl, refl)

  returned {ℓ} :
      {A : Type ℓ} (a b : A) (p : FcpResult (Unit {0}) × JournalStore) (s' : JournalStore)
      → returning a p ≡ (ok b, s')
      → (p.0 ≡ ok tt) × (p.1 ≡ s') × (a ≡ b)
  returned a b (ok _, s) s' h = (refl, cc, cc)
  returned a b (err e, s) s' h = absurd (cc h)

  find-append :
      (id : Uuid) (os : List JournalOperation) (o : JournalOperation)
      → find_operation id os ≡ none
      → o.operation_id ≡ id
      → find_operation id (os ++ (o ∷ [])) ≡ some o
  unfolding find_operation
  find-append id [] o f e = ground arith
  find-append id (p ∷ os) o f e = ground (arith, find-append id os o)

  created_shape :
      (r : OperationRequest) (s s' : JournalStore) (o : JournalOperation)
      → begin x r s ≡ (ok (created o), s')
      → (find_operation r.operation_id s'.journal.operations ≡ some o)
        × (fingerprint x r s.account_group_id ≡ ok o.request_fingerprint)
        × (s'.account_group_id ≡ s.account_group_id)
  unfolding begin operation
  created_shape r s s' o h = elim (FcpResult-cases (fingerprint x r s.account_group_id)) [
    | inr (e, p) ↦ absurd (cc (rw (p, begin) at h))
    | inl (digest, p) ↦ elim (Option-cases (find_operation r.operation_id s.journal.operations)) [
      | inr (existing, q) ↦ elim (Bool-cases (bytes_eq existing.request_fingerprint digest)) [
        | inl c ↦ absurd (cc (rw (p, begin, q, c) at h))
        | inr c ↦ absurd (cc (rw (p, begin, q, c) at h))
      ]
      | inl q ↦ elim (Option-cases (checked_suc s.journal.sequence_high_water)) [
        | inl c ↦ absurd (cc (rw (p, begin, q, c) at h))
        | inr (n, c) ↦ recorded digest n p q (rw (p, begin, q, c) at h)
      ]
    ]
  ]
    where
      recorded :
          (digest : Bytes) (n : ℕ)
          → fingerprint x r s.account_group_id ≡ ok digest
          → find_operation r.operation_id s.journal.operations ≡ none
          → returning
              (created (operation_of r n digest))
              (persist x (appended s.journal (operation_of r n digest)) s)
            ≡ (ok (created o), s')
          → (find_operation r.operation_id s'.journal.operations ≡ some o)
            × (fingerprint x r s.account_group_id ≡ ok o.request_fingerprint)
            × (s'.account_group_id ≡ s.account_group_id)
      recorded digest n p q e =
          let new = operation_of r n digest in
          let (t, u, v) = returned (created new) (created o) _ s' e in
          let (j, g) = persisted (appended s.journal new) s t (persist-Persisted x _ s) in
          let same : new ≡ o = created-injective v in
          (
            rw (← u, j, ← same) (find-append r.operation_id s.journal.operations new q refl),
            rw (← same) p,
            rw (← u) g,
          )

  -- A request that was recorded may be sent again: it is answered with the same operation, and the
  -- store does not change.
  pub begin_again :
      (r : OperationRequest) (s s' : JournalStore) (o : JournalOperation)
      → begin x r s ≡ (ok (created o), s')
      → begin x r s' ≡ (ok (duplicate o), s')
  unfolding begin operation
  begin_again r s s' o h =
      let (f, d, g) = created_shape r s s' o h in
      let d' : fingerprint x r s'.account_group_id ≡ ok o.request_fingerprint = rw g d in
      rw (d', begin, f, eqb_refl Bytes-discrete o.request_fingerprint)

  -- Its id with another payload, which has another fingerprint, is refused, and nothing changes.
  pub begin_reused :
      (r other : OperationRequest) (s s' : JournalStore) (o : JournalOperation) (digest : Bytes)
      → begin x r s ≡ (ok (created o), s')
      → other.operation_id ≡ r.operation_id
      → fingerprint x other s.account_group_id ≡ ok digest
      → digest ≢ o.request_fingerprint
      → begin x other s' ≡ (err (protocol operation_id_reused), s')
  unfolding begin operation
  begin_reused r other s s' o digest h same e n =
      let (f, d, g) = created_shape r s s' o h in
      let e' : fingerprint x other s'.account_group_id ≡ ok digest = rw g e in
      let f' : find_operation other.operation_id s'.journal.operations ≡ some o = rw same f in
      rw (e', begin, f', differs)
    where
      differs : bytes_eq o.request_fingerprint digest ≡ false
      differs = elim (Bool-cases (bytes_eq o.request_fingerprint digest)) [
        | inl t ↦ absurd (n (sym (eqb→eq Bytes-discrete _ _ t)))
        | inr t ↦ t
      ]
