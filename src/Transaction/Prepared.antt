-- ===== src/Transaction/Prepared.antt =====
-- What a prepared vault write promises, and what its commit does to the vault file.
use fursoy_vault.Prelude.{
  Bytes, Bytes-discrete, bytes_eq, Uuid, true, false, Option, none, some, List, [], ◌∷◌, ◌≡◌, ◌⊎◌,
  inl, inr, refl, arith, ap, ◌∙◌, eqb→eq, not, ◌==◌, Option-cases, checked_suc,
}
use mathlib.Core.Path.{subst}
use mathlib.Core.Option
use fursoy_vault.Error.{FcpError, ok, >>=-eq-ok, ok-injective, refuse_if, ok_or}
use fursoy_vault.AtomicFile
use fursoy_vault.AtomicFile.{
  FileState, Faults, WriteOutcome, success, failure, write_verified_durable, stored_bytes,
}
use fursoy_vault.AtomicFile.Outcomes.{Promise, write_verified_durable-Promise}
use fursoy_vault.Vault.Format.{VaultRecord, UuidBytes, record_decode, record_encode}
use fursoy_vault.Vault.Sealed.{VaultPayload, VaultCrates, seal_record, open_record}
use fursoy_vault.Vault.Store.{VaultFiles, verify_prepared, write_prepared}
use fursoy_vault.Transaction.{
  PreparedVaultWrite, Platform, prepare_replacement, prepare_first, prepare_after_snapshot,
  commit_prepared,
}

module _ {C : Type 0} (u : UuidBytes) (c : VaultCrates C) where
  -- Bytes that decode to a record of the group that opens under the key.
  pub record Readable (group_id : Uuid) (dek bytes : Bytes) : Type 0 where
    pub r : VaultRecord
    pub payload : VaultPayload C
    pub decoded : record_decode u bytes ≡ ok r
    pub same_group : r.header.group_id ≡ group_id
    pub opened : open_record u c r dek ≡ ok payload

  verify_prepared-Readable :
      (group_id : Uuid) (bytes dek persisted : Bytes)
      → verify_prepared u c group_id bytes dek persisted ≡ ok tt
      → (persisted ≡ bytes) × Readable group_id dek persisted
  unfolding verify_prepared
  verify_prepared-Readable group_id bytes dek persisted h =
      let (_, same, h) = >>=-eq-ok (refuse_if (not (bytes_eq persisted bytes)) _) _ h in
      let (r, d, h) = >>=-eq-ok (record_decode u persisted) _ h in
      let (_, g, h) = >>=-eq-ok (refuse_if (not (r.header.group_id == group_id)) _) _ h in
      let (payload, o, h) = >>=-eq-ok (open_record u c r dek) _ h in
      (
        eqb→eq Bytes-discrete persisted bytes (ground arith),
        record { r = r; payload = payload; decoded = d; same_group = ground arith; opened = o },
      )

  -- What a write leaves in the vault file.
  abbrev pub Committed : PreparedVaultWrite → VaultFiles → WriteOutcome → VaultFiles → Type 0
  Committed p v (success _) v' = (v'.file.target ≡ some p.bytes) × Readable p.group_id p.dek p.bytes
  Committed p v (failure AtomicFile.durability_unknown _) v' =
      (v'.file.target ≡ some p.bytes) × Readable p.group_id p.dek p.bytes
  Committed p v (failure _ _) v' = v'.file.target ≡ v.file.target

  written :
      (p : PreparedVaultWrite) (v : VaultFiles) (b : Bytes) (file : FileState)
      → file.target ≡ some b
      → verify_prepared u c p.group_id p.bytes p.dek b ≡ ok tt
      → (file.target ≡ some p.bytes) × Readable p.group_id p.dek p.bytes
  written p v b file t a =
      let (e, r) = verify_prepared-Readable p.group_id p.bytes p.dek b a in
      (t ∙ ap some e, subst (Readable p.group_id p.dek) e r)

  outcome-Committed :
      (p : PreparedVaultWrite) (v : VaultFiles) (b : Bytes) (outcome : WriteOutcome)
      (file : FileState)
      → Promise (verify_prepared u c p.group_id p.bytes p.dek) b v.file outcome file
      → Committed p v outcome (record v { file = file })
  outcome-Committed p v b (success AtomicFile.committed) file (t, _, a) = written p v b file t a
  outcome-Committed p v b (success AtomicFile.not_committed) file h = absurd h
  outcome-Committed p v b (success AtomicFile.durability_unknown) file h = absurd h
  outcome-Committed p v b (failure AtomicFile.committed e) file h = absurd h
  outcome-Committed p v b (failure AtomicFile.not_committed e) file h = h
  outcome-Committed p v b (failure AtomicFile.durability_unknown e) file (t, _, a) =
      written p v b file t a

  -- A commit that had to write left the prepared bytes, which decode to a record of the group that
  -- opens under the key of the preparation, or the vault as it was.
  pub commit_prepared-Committed :
      (k : Platform) (group_id : Uuid) (faults : Faults) (p : PreparedVaultWrite) (v : VaultFiles)
      → p.commit_required ≡ true
      → let (outcome, v') = commit_prepared u c k group_id faults p v in Committed p v outcome v'
  unfolding commit_prepared write_prepared
  commit_prepared-Committed k group_id faults p v h = rw h (
      outcome-Committed p v (stored_bytes faults p.bytes) _ _ (
        write_verified_durable-Promise faults p.bytes (verify_prepared u c p.group_id p.bytes p.dek)
          v.file))

  -- The digests of a prepared write are those of its bytes and of the vault file; only the bytes of
  -- the file itself need no commit.
  pub record IsPrepared (k : Platform) (v : VaultFiles) (p : PreparedVaultWrite) : Type 0 where
    pub target : p.target_digest ≡ k.sha256 p.bytes
    pub previous : p.previous_digest ≡ Option.map k.sha256 v.file.target
    pub unchanged : (p.commit_required ≡ true) ⊎ (v.file.target ≡ some p.bytes)
    pub written :
        (p.commit_required ≡ false) ⊎ ((r : VaultRecord) × (record_encode u r ≡ ok p.bytes))

  prepare_first-IsPrepared :
      (k : Platform) (group_id : Uuid) (v : VaultFiles) (cookies : List C) (p : PreparedVaultWrite)
      → v.file.target ≡ none
      → prepare_first u c k group_id cookies ≡ ok p
      → IsPrepared k v p
  unfolding prepare_first
  prepare_first-IsPrepared k group_id v [] p e h = absurd (cc h)
  prepare_first-IsPrepared k group_id v (x ∷ xs) p e h =
      let (_, _, h) = >>=-eq-ok k.ensure_exists _ h in
      let (dek, _, h) = >>=-eq-ok k.generate_dek _ h in
      let (wrapped, _, h) = >>=-eq-ok (k.wrap_dek dek) _ h in
      let (r, _, h) = >>=-eq-ok (seal_record u c k.generate_nonce group_id _ wrapped dek _) _ h in
      let (bytes, enc, h) = >>=-eq-ok (record_encode u r) _ h in
      subst (IsPrepared k v) (ok-injective h) (record {
        target = refl;
        previous = rw e refl;
        unchanged = inl refl;
        written = inr (r, enc);
      })

  prepare_replacement-IsPrepared :
      (k : Platform) (group_id : Uuid) (v : VaultFiles) (b : Bytes) (cookies : List C)
      (p : PreparedVaultWrite)
      → v.file.target ≡ some b
      → prepare_replacement u c k group_id b cookies ≡ ok p
      → IsPrepared k v p
  unfolding prepare_replacement
  prepare_replacement-IsPrepared k group_id v b [] p e h =
      let (existing, _, h) = >>=-eq-ok (record_decode u b) _ h in
      let (dek, _, h) = >>=-eq-ok (k.unwrap_dek existing.header.wrapped_dek) _ h in
      let (old, _, h) = >>=-eq-ok (open_record u c existing dek) _ h in
      subst (IsPrepared k v) (ok-injective h)
        (record { target = refl; previous = rw e refl; unchanged = inr e; written = inl refl })
  prepare_replacement-IsPrepared k group_id v b (x ∷ xs) p e h =
      let (existing, _, h) = >>=-eq-ok (record_decode u b) _ h in
      let (dek, _, h) = >>=-eq-ok (k.unwrap_dek existing.header.wrapped_dek) _ h in
      let (old, _, h) = >>=-eq-ok (open_record u c existing dek) _ h in
      let (n, _, h) = >>=-eq-ok (ok_or (checked_suc old.vault_sequence) _) _ h in
      let (r, _, h) =
        >>=-eq-ok
          (seal_record u c k.generate_nonce group_id existing.header.kek_key_id
            existing.header.wrapped_dek dek _)
          _ h in
      let (bytes, enc, h) = >>=-eq-ok (record_encode u r) _ h in
      subst (IsPrepared k v) (ok-injective h) (record {
        target = refl;
        previous = rw e refl;
        unchanged = inl refl;
        written = inr (r, enc);
      })

  -- What is prepared carries the digests of its bytes and of the vault file as it was; bytes that
  -- need no commit are those of the vault file, and all others are the encoding of a record.
  pub prepare_after_snapshot-IsPrepared :
      (k : Platform) (group_id : Uuid) (fault : Option FcpError) (cookies : List C) (v : VaultFiles)
      (p : PreparedVaultWrite)
      → prepare_after_snapshot u c k group_id fault cookies v ≡ ok p
      → IsPrepared k v p
  unfolding prepare_after_snapshot
  prepare_after_snapshot-IsPrepared k group_id fault cookies v p h =
      elim (Option-cases v.file.target) [
        | inl e ↦
            prepare_first-IsPrepared k group_id v cookies p e (rw (e, prepare_after_snapshot) at h)
        | inr (b, e) ↦ replaced b e fault h
      ]
    where
      replaced :
          (b : Bytes)
          → v.file.target ≡ some b
          → (fault : Option FcpError) → prepare_after_snapshot u c k group_id fault cookies v ≡ ok p
          → IsPrepared k v p
      replaced b e (some f) h = absurd (cc (rw (e, prepare_after_snapshot) at h))
      replaced b e none h =
          prepare_replacement-IsPrepared k group_id v b cookies p e
            (rw (e, prepare_after_snapshot, e) at h)
