-- ===== src/Vault/Sealed/RoundTrip.antt =====
-- A sealed record opens to what its text says.
use fursoy_vault.Prelude.{Bytes, Uuid, ℕ, ◌≡◌, ◌==◌, not, length, some, refl, arith, sym, ◌∙◌}
use mathlib.Core.Path.{subst}
use fursoy_vault.Error.{
  FcpResult, ok, >>=-eq-ok, ok-injective, refuse_if, ◌>>=◌, ◌>>◌, format,
  payload_schema_unsupported,
}
use fursoy_vault.Vault.Format.{
  VaultHeader, VaultRecord, UuidBytes, header_new, header_encode, header_validate, record_validate,
}
use fursoy_vault.Vault.Sealed.{
  VaultPayload, VaultCrates, payload_schema_version, dek_bytes, encrypt, decrypt, seal_record,
  open_record,
}

-- The documented behaviour of aes_gcm at one key, nonce and associated data: decryption undoes
-- encryption, which keeps the length. Nothing is asked of the JSON.
pub record CratesLaws {C : Type 0} (c : VaultCrates C) : Type 0 where
  pub decrypts :
      (dek nonce aad plaintext ciphertext tag : Bytes)
      → c.encrypt_detached dek nonce aad plaintext ≡ some (ciphertext, tag)
      → (c.decrypt_detached dek nonce aad ciphertext tag ≡ some plaintext)
        × (length ciphertext ≡ length plaintext)

module _ {C : Type 0} (c : VaultCrates C) where
  -- What the reader makes of a text: the payload that it decodes to, if its schema is known.
  abbrev pub reads_as : Bytes → FcpResult (VaultPayload C)
  reads_as plaintext = do
    payload ← c.payload_of_json plaintext
    refuse_if (not (payload.schema_version == payload_schema_version))
        (format payload_schema_unsupported)
    ok payload

module _ {C : Type 0} (u : UuidBytes) (c : VaultCrates C) (laws : CratesLaws c) where
  encrypt-decrypt :
      (dek nonce aad plaintext : Bytes) (p : Bytes × Bytes)
      → encrypt u c dek nonce aad plaintext ≡ ok p
      → (decrypt u c dek nonce aad p.0 p.1 ≡ ok plaintext) × (length p.0 ≡ length plaintext)
  unfolding encrypt decrypt
  encrypt-decrypt dek nonce aad plaintext (ciphertext, tag) h =
      let (_, key, h) = >>=-eq-ok (refuse_if (not (length dek == dek_bytes)) _) _ h in
      let (e, l) = laws.decrypts dek nonce aad plaintext ciphertext tag (ground arith) in
      (rw (key, e) refl, l)

  fields :
      (g : Uuid) (k n d : Bytes) (l : ℕ) (h : VaultHeader)
      → header_new g k n d l ≡ ok h
      → (h.nonce ≡ n) × (h.ciphertext_len ≡ l) × (header_validate h ≡ ok tt)
  unfolding header_new header_validate
  fields g k n d l h e = (ground arith, ground arith, ground arith)

  valid :
      (header : VaultHeader) (ciphertext tag : Bytes)
      → header_validate header ≡ ok tt
      → length ciphertext ≡ header.ciphertext_len
      → record_validate (record { header = header; ciphertext = ciphertext; tag = tag }) ≡ ok tt
  unfolding record_validate
  valid header ciphertext tag v l = rw v (ground arith)

  opens :
      (group : Uuid) (kek wrapped dek nonce aad plaintext ciphertext tag : Bytes)
      (header : VaultHeader)
      → header_new group kek nonce wrapped (length plaintext) ≡ ok header
      → header_encode u header ≡ ok aad
      → encrypt u c dek nonce aad plaintext ≡ ok (ciphertext, tag)
      → open_record u c (record { header = header; ciphertext = ciphertext; tag = tag }) dek
        ≡ reads_as c plaintext
  unfolding open_record
  opens group kek wrapped dek nonce aad plaintext ciphertext tag header made encoded sealed =
      let (n, l, v) = fields group kek nonce wrapped (length plaintext) header made in
      let (d, k) = encrypt-decrypt dek nonce aad plaintext (ciphertext, tag) sealed in
      rw (valid header ciphertext tag v (k ∙ sym l), encoded, n, d) refl

  -- A record that `seal` returns opens under the same key, after all checks of its header, exactly as
  -- the JSON text of the sealed payload decodes: to the payload of that text, or with the error of the
  -- decoder or of an unknown schema.
  pub open_record-seal_record :
      (drawn : FcpResult Bytes) (group : Uuid) (kek wrapped dek : Bytes) (payload : VaultPayload C)
      (r : VaultRecord)
      → seal_record u c drawn group kek wrapped dek payload ≡ ok r
      → (plaintext : Bytes) × (c.payload_json payload ≡ ok plaintext)
        × (open_record u c r dek ≡ reads_as c plaintext)
  unfolding seal_record open_record
  open_record-seal_record drawn group kek wrapped dek payload r h =
      let (_, _, h) =
        >>=-eq-ok (refuse_if (not (payload.schema_version == payload_schema_version)) _) _ h in
      let (plaintext, json, h) = >>=-eq-ok (c.payload_json payload) _ h in
      let (nonce, _, h) = >>=-eq-ok drawn _ h in
      let (header, made, h) =
        >>=-eq-ok (header_new group kek nonce wrapped (length plaintext)) _ h in
      let (aad, encoded, h) = >>=-eq-ok (header_encode u header) _ h in
      let ((ciphertext, tag), sealed, h) = >>=-eq-ok (encrypt u c dek nonce aad plaintext) _ h in
      (
        plaintext,
        json,
        subst (λ (z : VaultRecord). open_record u c z dek ≡ reads_as c plaintext) (ok-injective h)
            (opens group kek wrapped dek nonce aad plaintext ciphertext tag header made encoded
              sealed),
      )
