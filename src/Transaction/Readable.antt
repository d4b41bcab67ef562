-- ===== src/Transaction/Readable.antt =====
-- That a group can read what was committed: its key service unwraps the key of the record in the file.
use fursoy_vault.Prelude.{
  Bytes, Uuid, ◌<◌, ◌^◌, true, Option, none, some, List, [], ◌∷◌, ◌≡◌, inl, inr, refl, arith, sym,
  ap, ◌∙◌, not, ◌==◌, length, Option-cases, checked_suc,
}
use mathlib.Core.Path.{subst}
use fursoy_vault.Error.{FcpError, ok, >>=-eq-ok, ok-injective, refuse_if, ok_or}
use fursoy_vault.AtomicFile
use fursoy_vault.AtomicFile.{Faults, WriteOutcome, success, failure}
use fursoy_vault.Vault.Format.{
  VaultHeader, VaultRecord, UuidBytes, record_decode, record_encode, header_new, header_encode,
  gcm_tag_bytes, gcm_nonce_bytes,
}
use fursoy_vault.Vault.Format.Widths.{kek_of_header, decoded_kek}
use fursoy_vault.Vault.Format.RoundTrip.{UuidLaws, decode-encode}
use fursoy_vault.Vault.Sealed.{
  VaultPayload, VaultCrates, payload_schema_version, dek_bytes, encrypt, seal_record, open_record,
}
use fursoy_vault.Vault.Store.{VaultFiles, read_bytes, read_vault}
use fursoy_vault.Transaction.{
  PreparedVaultWrite, Platform, kek_key_id, prepare_replacement, prepare_first,
  prepare_after_snapshot, commit_prepared,
}
use fursoy_vault.Transaction.Prepared.{Readable, Committed, commit_prepared-Committed}
use fursoy_vault.Transaction.Authorization.{read_payload}

-- The documented behaviour of the key service, of the random source and of aes_gcm: a wrapped key
-- unwraps to itself, and nonces and tags have their widths.
pub record KeyLaws {C : Type 0} (c : VaultCrates C) (k : Platform) : Type 0 where
  pub unwraps : (dek wrapped : Bytes) → k.wrap_dek dek ≡ ok wrapped → k.unwrap_dek wrapped ≡ ok dek
  pub nonce_width : (nonce : Bytes) → k.generate_nonce ≡ ok nonce → length nonce ≡ gcm_nonce_bytes
  pub tag_width :
      (dek nonce aad plaintext ciphertext tag : Bytes)
      → c.encrypt_detached dek nonce aad plaintext ≡ some (ciphertext, tag)
      → length tag ≡ gcm_tag_bytes

module _ {C : Type 0} (u : UuidBytes) (uuid : UuidLaws u) (c : VaultCrates C) (k : Platform)
    (laws : KeyLaws c k) (group : Uuid) (small : group < 2 ^ 128) where
  -- The bytes decode to a record whose key the platform unwraps to the key of the preparation.
  abbrev HasKey : PreparedVaultWrite → Type 0
  HasKey p =
      (p.group_id ≡ group)
      × (r : VaultRecord) × (record_decode u p.bytes ≡ ok r)
      × (k.unwrap_dek r.header.wrapped_dek ≡ ok p.dek)

  encrypted_tag :
      (dek nonce aad plaintext ciphertext tag : Bytes)
      → encrypt u c dek nonce aad plaintext ≡ ok (ciphertext, tag)
      → length tag ≡ gcm_tag_bytes
  unfolding encrypt
  encrypted_tag dek nonce aad plaintext ciphertext tag h =
      let (_, key, h) = >>=-eq-ok (refuse_if (not (length dek == dek_bytes)) _) _ h in
      laws.tag_width dek nonce aad plaintext ciphertext tag (ground arith)

  sealed_decodes :
      (kek wrapped dek bytes : Bytes) (payload : VaultPayload C) (r : VaultRecord)
      → length kek ≡ 16
      → seal_record u c k.generate_nonce group kek wrapped dek payload ≡ ok r
      → record_encode u r ≡ ok bytes
      → (record_decode u bytes ≡ ok r) × (r.header.wrapped_dek ≡ wrapped)
  unfolding seal_record
  sealed_decodes kek wrapped dek bytes payload r w h encoded =
      let (_, _, h) =
        >>=-eq-ok (refuse_if (not (payload.schema_version == payload_schema_version)) _) _ h in
      let (plaintext, _, h) = >>=-eq-ok (c.payload_json payload) _ h in
      let (nonce, drawn, h) = >>=-eq-ok k.generate_nonce _ h in
      let (header, made, h) =
        >>=-eq-ok (header_new group kek nonce wrapped (length plaintext)) _ h in
      let (aad, _, h) = >>=-eq-ok (header_encode u header) _ h in
      let ((ciphertext, tag), sealed, h) = >>=-eq-ok (encrypt u c dek nonce aad plaintext) _ h in
      let same = ok-injective h in
      let shape =
        ap (λ (z : VaultRecord). z.header) (sym same)
        ∙ kek_of_header group kek nonce wrapped (length plaintext) header made in
      (
        decode-encode u uuid r bytes
            (record {
              group_id = subst (λ (z : VaultHeader). z.group_id < 2 ^ 128) (sym shape) small;
              kek_key_id = ap (λ (z : VaultHeader). length z.kek_key_id) shape ∙ w;
              nonce = ap (λ (z : VaultHeader). length z.nonce) shape ∙ laws.nonce_width nonce drawn;
              tag =
                  ap (λ (z : VaultRecord). length z.tag) (sym same)
                  ∙ encrypted_tag dek nonce aad plaintext ciphertext tag sealed;
            })
            encoded,
        ap (λ (z : VaultHeader). z.wrapped_dek) shape,
      )

  prepare_replacement-HasKey :
      (b : Bytes) (cookies : List C) (p : PreparedVaultWrite)
      → prepare_replacement u c k group b cookies ≡ ok p
      → HasKey p
  unfolding prepare_replacement
  prepare_replacement-HasKey b [] p h =
      let (existing, decoded, h) = >>=-eq-ok (record_decode u b) _ h in
      let (dek, unwrapped, h) = >>=-eq-ok (k.unwrap_dek existing.header.wrapped_dek) _ h in
      let (old, _, h) = >>=-eq-ok (open_record u c existing dek) _ h in
      subst HasKey (ok-injective h) (refl, existing, decoded, unwrapped)
  prepare_replacement-HasKey b (x ∷ xs) p h =
      let (existing, decoded, h) = >>=-eq-ok (record_decode u b) _ h in
      let (dek, unwrapped, h) = >>=-eq-ok (k.unwrap_dek existing.header.wrapped_dek) _ h in
      let (old, _, h) = >>=-eq-ok (open_record u c existing dek) _ h in
      let (n, _, h) = >>=-eq-ok (ok_or (checked_suc old.vault_sequence) _) _ h in
      let (r, sealed, h) =
        >>=-eq-ok
          (seal_record u c k.generate_nonce group existing.header.kek_key_id
            existing.header.wrapped_dek dek _)
          _ h in
      let (bytes, encoded, h) = >>=-eq-ok (record_encode u r) _ h in
      let (again, same) =
        sealed_decodes existing.header.kek_key_id existing.header.wrapped_dek dek bytes _ r
          (decoded_kek u b existing decoded) sealed encoded in
      subst HasKey (ok-injective h) (refl, r, again, ap k.unwrap_dek same ∙ unwrapped)

  prepare_first-HasKey :
      (cookies : List C) (p : PreparedVaultWrite)
      → prepare_first u c k group cookies ≡ ok p
      → HasKey p
  unfolding prepare_first
  prepare_first-HasKey [] p h = absurd (cc h)
  prepare_first-HasKey (x ∷ xs) p h =
      let (_, _, h) = >>=-eq-ok k.ensure_exists _ h in
      let (dek, _, h) = >>=-eq-ok k.generate_dek _ h in
      let (wrapped, drawn, h) = >>=-eq-ok (k.wrap_dek dek) _ h in
      let (r, sealed, h) = >>=-eq-ok (seal_record u c k.generate_nonce group _ wrapped dek _) _ h in
      let (bytes, encoded, h) = >>=-eq-ok (record_encode u r) _ h in
      let (again, same) = sealed_decodes kek_key_id wrapped dek bytes _ r refl sealed encoded in
      subst HasKey (ok-injective h)
        (refl, r, again, ap k.unwrap_dek same ∙ laws.unwraps dek wrapped drawn)

  prepare_after_snapshot-HasKey :
      (fault : Option FcpError) (cookies : List C) (v : VaultFiles) (p : PreparedVaultWrite)
      → prepare_after_snapshot u c k group fault cookies v ≡ ok p
      → HasKey p
  unfolding prepare_after_snapshot
  prepare_after_snapshot-HasKey fault cookies v p h = elim (Option-cases v.file.target) [
    | inl e ↦ prepare_first-HasKey cookies p (rw (e, prepare_after_snapshot) at h)
    | inr (b, e) ↦
        let (bytes, _, h) =
          >>=-eq-ok (read_bytes fault v) _ (rw (e, prepare_after_snapshot) at h) in
        prepare_replacement-HasKey bytes cookies p h
  ]

  -- The vault file is a record of the group, and the platform's key service reads its payload.
  abbrev Reads : VaultFiles → Type 0
  Reads v =
      (r : VaultRecord) × (payload : VaultPayload C) × (read_vault u c none v ≡ ok r)
      × (r.header.group_id ≡ group)
      × (read_payload u c k none v ≡ ok payload)

  -- What a commit leaves: a vault file with the prepared bytes that the group's key service reads,
  -- or the file as it was.
  abbrev pub Left : PreparedVaultWrite → VaultFiles → WriteOutcome → VaultFiles → Type 0
  Left p v (success _) v' = (v'.file.target ≡ some p.bytes) × Reads v'
  Left p v (failure AtomicFile.durability_unknown _) v' = (v'.file.target ≡ some p.bytes) × Reads v'
  Left p v (failure _ _) v' = v'.file.target ≡ v.file.target

  reads :
      (p : PreparedVaultWrite) (v : VaultFiles)
      → HasKey p
      → v.file.target ≡ some p.bytes
      → Readable u c p.group_id p.dek p.bytes
      → Reads v
  unfolding read_payload read_vault
  reads p v (same, r, decoded, unwrapped) target readable =
      let again = ok-injective (sym decoded ∙ readable.decoded) in
      (
        r,
        readable.payload,
        rw target decoded,
        ap (λ (z : VaultRecord). z.header.group_id) again ∙ readable.same_group ∙ same,
        rw (target, decoded, unwrapped)
            (ap (λ (z : VaultRecord). open_record u c z p.dek) again ∙ readable.opened),
      )

  left :
      (p : PreparedVaultWrite) (v : VaultFiles) (outcome : WriteOutcome) (v' : VaultFiles)
      → HasKey p
      → Committed u c p v outcome v'
      → Left p v outcome v'
  left p v (success _) v' key (t, r) = (t, reads p v' key t r)
  left p v (failure AtomicFile.durability_unknown e) v' key (t, r) = (t, reads p v' key t r)
  left p v (failure AtomicFile.committed e) v' key h = h
  left p v (failure AtomicFile.not_committed e) v' key h = h

  -- For a group id of 128 bits, a lawful key service and all faults of the file system: the commit
  -- of a write that was prepared for the group and needs a commit left, where it succeeded or its
  -- durability is unknown, the prepared bytes in the vault file, and from them the group's record is
  -- read, the key service unwraps its key and a payload opens; with any other error it left the
  -- bytes of the vault file as they were.
  pub commit_prepared-Left :
      (faults : Faults) (fault : Option FcpError) (cookies : List C) (v w : VaultFiles)
      (p : PreparedVaultWrite)
      → prepare_after_snapshot u c k group fault cookies v ≡ ok p
      → p.commit_required ≡ true
      → let (outcome, w') = commit_prepared u c k group faults p w in Left p w outcome w'
  commit_prepared-Left faults fault cookies v w p h required =
      left p w _ _ (prepare_after_snapshot-HasKey fault cookies v p h)
        (commit_prepared-Committed u c k group faults p w required)
