-- ===== src/Lease/Metadata/Loads.antt =====
-- What the metadata is once it is loaded.
use fursoy_vault.Prelude.{
  Bytes, Uuid, Bool, true, false, Option, none, some, ◌≡◌, ◌⊎◌, inl, inr, refl, arith, ap, sym, ◌∙◌,
  not, ◌==◌, ◌&&◌, if◌then◌else◌, eqb, eqb→eq, Bool-cases, Option-cases,
}
use mathlib.Core.Path.{subst}
use fursoy_vault.Error.{
  FcpError, FcpResult, FcpResult-cases, ok, err, >>=-eq-ok, refuse_if, format,
  vault_without_metadata,
}
use fursoy_vault.AtomicFile.{FileState, next_faults, stored_bytes}
use fursoy_vault.AtomicFile.Outcomes.{write_verified_result}
use fursoy_vault.Lease.Metadata.{
  LeaseMetadata, LeaseMetadata-discrete, MetadataHost, MetadataJson, lease_metadata_version,
  legacy_lease_metadata_version, initial, metadata_validate, advance_transition, is_uninitialized,
  migrated, verify_metadata, persist_metadata, wrote, migrate, reconcile,
  metadata_load_or_initialize,
}

module _ (j : MetadataJson) where
  -- The file holds the metadata.
  abbrev pub Holds : LeaseMetadata → MetadataHost → Type 0
  Holds m h = (b : Bytes) × (h.file.target ≡ some b) × (j.decode b ≡ ok m)

  decoded : (m : LeaseMetadata) (b : Bytes) → verify_metadata j m b ≡ ok tt → j.decode b ≡ ok m
  unfolding verify_metadata
  decoded m b v =
      let (l, d, k) =
        >>=-eq-ok (j.decode b)
          (λ verified. refuse_if (not (eqb LeaseMetadata-discrete verified m)) _) v in
      elim (Bool-cases (eqb LeaseMetadata-discrete l m)) [
        | inl t ↦ d ∙ ap ok (eqb→eq LeaseMetadata-discrete l m t)
        | inr t ↦ absurd (cc (rw t at k))
      ]

  persist_metadata-ok :
      (m m' : LeaseMetadata) (h h' : MetadataHost)
      → persist_metadata j m h ≡ (ok m', h')
      → (m ≡ m') × Holds m' h'
  unfolding persist_metadata
  persist_metadata-ok m m' h h' t =
      elim (FcpResult-cases (metadata_validate m m.account_group_id)) [
        | inr (e, v) ↦ absurd (cc (rw (v, persist_metadata) at t))
        | inl (_, v) ↦ elim (FcpResult-cases (j.encode m)) [
          | inr (e, q) ↦ absurd (cc (rw (v, q, persist_metadata) at t))
          | inl (b, q) ↦
              settled _ (stored_bytes (next_faults h.faults) b)
                (write_verified_result (next_faults h.faults) b (verify_metadata j m) h.file)
                (rw (v, q, persist_metadata) at t)
        ]
      ]
    where
      settled :
          (r : FcpResult (Unit {0}) × FileState) (c : Bytes)
          → ((r.0 ≡ ok tt) × (r.1.target ≡ some c) × (verify_metadata j m c ≡ ok tt))
            ⊎ ((e : FcpError) × (r.0 ≡ err e)
                × ((r.1.target ≡ h.file.target)
                    ⊎ ((r.1.target ≡ some c) × (verify_metadata j m c ≡ ok tt))))
          → wrote j m h r ≡ (ok m', h')
          → (m ≡ m') × Holds m' h'
      settled (ok _, file) c (inl (_, f, v)) t =
          let same : m ≡ m' = cc t in
          let kept : file ≡ h'.file =
            ap (λ (z : FcpResult LeaseMetadata × MetadataHost). z.1.file) t in
          (same, (c, ap (λ (z : FileState). z.target) (sym kept) ∙ f, decoded m c v ∙ ap ok same))
      settled (ok _, file) c (inr (e, f, _)) t = absurd (cc f)
      settled (err e, file) c o t = absurd (cc t)

  -- What the caller is given.
  abbrev pub Agrees : Uuid → Bool → LeaseMetadata → MetadataHost → Type 0
  Agrees group vault_exists m h =
      (m.version ≡ lease_metadata_version)
      × (m.account_group_id ≡ group)
      × (is_uninitialized m.state ≡ not vault_exists)
      × Holds m h

  initial_state : (group : Uuid) (v : Bool) → is_uninitialized (initial group v).state ≡ not v
  unfolding initial
  initial_state group true = refl
  initial_state group false = refl

  fresh :
      (group : Uuid) (v : Bool) (h h' : MetadataHost) (m : LeaseMetadata)
      → persist_metadata j (initial group v) h ≡ (ok m, h')
      → Agrees group v m h'
  unfolding initial
  fresh group v h h' m t =
      let (e, k) = persist_metadata-ok (initial group v) m h h' t in
      (
        sym (ap (λ (z : LeaseMetadata). z.version) e),
        sym (ap (λ (z : LeaseMetadata). z.account_group_id) e),
        ap (λ (z : LeaseMetadata). is_uninitialized z.state) (sym e) ∙ initial_state group v,
        k,
      )

  kept :
      (m m' : LeaseMetadata) (h h' : MetadataHost) (P : LeaseMetadata → MetadataHost → Type 0)
      → (let z : FcpResult LeaseMetadata × MetadataHost = (ok m, h) in z ≡ (ok m', h'))
      → P m h
      → P m' h'
  kept m m' h h' P e p =
      let same : m ≡ m' = cc e in
      let here : h ≡ h' = cc e in subst (λ x. P x h') same (subst (P m) here p)

  metadata_validate-ok :
      (m : LeaseMetadata) (group : Uuid) {a : Unit {0}}
      → metadata_validate m group ≡ ok a
      → (m.version ≡ lease_metadata_version) × (m.account_group_id ≡ group)
  unfolding metadata_validate
  metadata_validate-ok m group c =
      let (_, v, c) = >>=-eq-ok (refuse_if (not (m.version == lease_metadata_version)) _) _ c in
      (ground arith, ground arith)

  reconcile-Agrees :
      (group : Uuid) (v : Bool) (m m' : LeaseMetadata) (h h' : MetadataHost)
      → Holds m h
      → reconcile j group v (ok m, h) ≡ (ok m', h')
      → Agrees group v m' h'
  reconcile-Agrees group v m m' h h' k t = elim (FcpResult-cases (metadata_validate m group)) [
    | inr (e, c) ↦ absurd (cc (rw (c, reconcile) at t))
    | inl (_, c) ↦
        checked v (is_uninitialized m.state) refl (metadata_validate-ok m group c)
          (rw (c, reconcile) at t)
  ]
    where
      checked :
          (v b : Bool)
          → is_uninitialized m.state ≡ b
          → (m.version ≡ lease_metadata_version) × (m.account_group_id ≡ group)
          → (if b && v
              then (err (format vault_without_metadata), h)
              else if not b && not v
              then persist_metadata j (initial group false) h
              else (ok m, h))
            ≡ (ok m', h')
          → Agrees group v m' h'
      checked true true s c t = absurd (cc t)
      checked false false s c t = fresh group false h h' m' t
      checked true false s c t = kept m m' h h' (Agrees group true) t (c.0, c.1, s, k)
      checked false true s c t = kept m m' h h' (Agrees group false) t (c.0, c.1, s, k)

  migrate-Holds :
      (m m' : LeaseMetadata) (h h' : MetadataHost)
      → Holds m h
      → migrate j m h ≡ (ok m', h')
      → Holds m' h'
  unfolding migrate
  migrate-Holds m m' h h' k t = elim (Bool-cases (m.version == legacy_lease_metadata_version)) [
    | inl v ↦ elim (FcpResult-cases (advance_transition (migrated m))) [
      | inr (e, a) ↦ absurd (cc (rw (v, a, migrate) at t))
      | inl (n, a) ↦ (persist_metadata-ok n m' h h' (rw (v, a, migrate) at t)).1
    ]
    | inr v ↦ kept m m' h h' Holds (rw (v, migrate) at t) k
  ]

  -- Metadata that is loaded has the current version and the group that was asked for, it is without a
  -- vault exactly where the vault is missing, and the file holds it: also where it is created, migrated
  -- from the first version, or reset because the vault is gone.
  pub load_or_initialize-Agrees :
      (read : Option FcpError) (group : Uuid) (vault_exists : Bool) (h h' : MetadataHost)
      (m : LeaseMetadata)
      → metadata_load_or_initialize j read group vault_exists h ≡ (ok m, h')
      → Agrees group vault_exists m h'
  unfolding metadata_load_or_initialize
  load_or_initialize-Agrees (some e) group v h h' m t = elim (Option-cases h.file.target) [
    | inl f ↦ fresh group v h h' m (rw (f, metadata_load_or_initialize) at t)
    | inr (b, f) ↦ absurd (cc (rw (f, metadata_load_or_initialize) at t))
  ]
  load_or_initialize-Agrees none group v h h' m t = elim (Option-cases h.file.target) [
    | inl f ↦ fresh group v h h' m (rw (f, metadata_load_or_initialize) at t)
    | inr (b, f) ↦ elim (FcpResult-cases (j.decode b)) [
      | inr (e, d) ↦ absurd (cc (rw (f, d, metadata_load_or_initialize) at t))
      | inl (n, d) ↦
          loaded n (b, f, d) (migrate j n h) refl (rw (f, d, metadata_load_or_initialize) at t)
    ]
  ]
    where
      loaded :
          (n : LeaseMetadata)
          → Holds n h
          → (r : FcpResult LeaseMetadata × MetadataHost) → migrate j n h ≡ r
          → reconcile j group v r ≡ (ok m, h')
          → Agrees group v m h'
      loaded n k (ok n', h₁) e t =
          reconcile-Agrees group v n' m h₁ h' (migrate-Holds n n' h h₁ k e) t
      loaded n k (err e', h₁) e t = absurd (cc t)
