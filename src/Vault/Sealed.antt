-- ===== src/Vault/Sealed.antt =====
-- native-host/src/vault/format.rs (seal and open), crypto/aead.rs and vault/payload.rs: a vault
-- record is an encrypted payload. `C` is the type of a cookie record.
pub mod RoundTrip
use fursoy_vault.Prelude.{
  Bytes, Uuid, ℕ, Bool, Option, none, some, List, [], ◌≡◌, ◌==◌, not, length,
}
use fursoy_vault.Error.{
  FcpError, FcpResult, ok, err, ◌>>=◌, ◌>>◌, refuse_if, ok_or, crypto, format, key_length_invalid,
  encryption_failed, authentication_failed, payload_schema_unsupported,
}
use fursoy_vault.Vault.Format.{
  VaultHeader, VaultRecord, UuidBytes, header_new, header_encode, record_validate,
}

abbrev pub payload_schema_version : ℕ
payload_schema_version = 1

abbrev pub dek_bytes : ℕ
dek_bytes = 32

module _ (C : Type 0) where
  pub record VaultPayload : Type 0 where
    pub schema_version : ℕ  -- u16
    pub vault_sequence : ℕ  -- u64
    pub cookies : List C

  -- The crates: aes_gcm (key, nonce, associated data, text), and serde_json for the payload.
  pub record VaultCrates : Type 0 where
    pub encrypt_detached : Bytes → Bytes → Bytes → Bytes → Option (Bytes × Bytes)
    pub decrypt_detached : Bytes → Bytes → Bytes → Bytes → Bytes → Option Bytes
    pub payload_json : VaultPayload → FcpResult Bytes
    pub payload_of_json : Bytes → FcpResult VaultPayload

module _ {C : Type 0} (u : UuidBytes) (c : VaultCrates C) where
  unfoldable pub encrypt : Bytes → Bytes → Bytes → Bytes → FcpResult (Bytes × Bytes)
  encrypt dek nonce aad plaintext = do
    refuse_if (not (length dek == dek_bytes)) (crypto key_length_invalid)
    ok_or (c.encrypt_detached dek nonce aad plaintext) (crypto encryption_failed)

  unfoldable pub decrypt : Bytes → Bytes → Bytes → Bytes → Bytes → FcpResult Bytes
  decrypt dek nonce aad ciphertext tag = do
    refuse_if (not (length dek == dek_bytes)) (crypto key_length_invalid)
    ok_or (c.decrypt_detached dek nonce aad ciphertext tag) (crypto authentication_failed)

  -- `drawn` is what `generate_nonce` returns.
  unfoldable pub seal_record :
      FcpResult Bytes → Uuid → Bytes → Bytes → Bytes → VaultPayload C → FcpResult VaultRecord
  seal_record drawn group_id kek_key_id wrapped_dek dek payload = do
    refuse_if (not (payload.schema_version == payload_schema_version))
        (format payload_schema_unsupported)
    plaintext ← c.payload_json payload
    nonce ← drawn
    header ← header_new group_id kek_key_id nonce wrapped_dek (length plaintext)
    aad ← header_encode u header
    (ciphertext, tag) ← encrypt dek nonce aad plaintext
    ok (record { header = header; ciphertext = ciphertext; tag = tag })

  unfoldable pub open_record : VaultRecord → Bytes → FcpResult (VaultPayload C)
  open_record r dek = do
    record_validate r
    aad ← header_encode u r.header
    plaintext ← decrypt dek r.header.nonce aad r.ciphertext r.tag
    payload ← c.payload_of_json plaintext
    refuse_if (not (payload.schema_version == payload_schema_version))
        (format payload_schema_unsupported)
    ok payload
