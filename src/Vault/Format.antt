-- ===== src/Vault/Format.antt =====
-- native-host/src/vault/format.rs: the byte format of a vault record, version 1. Fixed arrays of the
-- source are lists; their lengths are `HasWidths` in Format/Fields.antt.
pub mod Fields
pub mod RoundTrip
pub mod Widths
pub mod Canonical
use fursoy_vault.Prelude.{
  Uuid, is_nil, Bytes, bytes_eq, u64_limit, ℕ, ◌+◌, ◌*◌, Bool, true, false, Option, none, some,
  List, [], ◌∷◌, ◌++◌, ◌==◌, ltb, leb, length, take, drop, not, le_bytes, from_le, if◌then◌else◌,
}
use fursoy_vault.Error.{
  FcpResult, ok, err, ◌>>=◌, ◌>>◌, refuse_if, format, group_id_nil, wrapped_dek_length,
  ciphertext_too_long, ciphertext_length_mismatch, vault_truncated, vault_magic_mismatch,
  vault_length_mismatch, vault_length_overflow, cursor_overflow, field_length_invalid,
  format_version_unsupported, header_len_unsupported, aead_alg_unsupported, wrap_alg_unsupported,
  wrapped_dek_len_unsupported, payload_schema_unsupported, Reason,
}

abbrev pub vault_magic : Bytes
vault_magic = b'F' ∷ b'C' ∷ b'P' ∷ b'V' ∷ []

abbrev pub vault_format_version : ℕ
vault_format_version = 1

abbrev pub aead_alg_aes_256_gcm : ℕ
aead_alg_aes_256_gcm = 1

abbrev pub wrap_alg_rsa_2048_oaep_sha256 : ℕ
wrap_alg_rsa_2048_oaep_sha256 = 1

abbrev pub max_ciphertext_bytes : ℕ
max_ciphertext_bytes = 4 * 1024 * 1024

abbrev pub gcm_nonce_bytes : ℕ
gcm_nonce_bytes = 12

abbrev pub gcm_tag_bytes : ℕ
gcm_tag_bytes = 16

abbrev pub wrapped_dek_bytes : ℕ
wrapped_dek_bytes = 256

abbrev pub fixed_header_bytes : ℕ
fixed_header_bytes = 4 + 2 + 2 + 16 + 2 + 2 + 16 + gcm_nonce_bytes + 2 + wrapped_dek_bytes + 4

pub record VaultHeader : Type 0 where
  pub group_id : Uuid
  pub kek_key_id : Bytes
  pub nonce : Bytes
  pub wrapped_dek : Bytes
  pub ciphertext_len : ℕ  -- u32

pub record VaultRecord : Type 0 where
  pub header : VaultHeader
  pub ciphertext : Bytes
  pub tag : Bytes

unfoldable pub header_new : Uuid → Bytes → Bytes → Bytes → ℕ → FcpResult VaultHeader
header_new group_id kek_key_id nonce wrapped_dek ciphertext_len = do
  refuse_if (is_nil group_id) (format group_id_nil)
  refuse_if (not (length wrapped_dek == wrapped_dek_bytes)) (format wrapped_dek_length)
  refuse_if (ltb max_ciphertext_bytes ciphertext_len) (format ciphertext_too_long)
  ok (record {
    group_id = group_id;
    kek_key_id = kek_key_id;
    nonce = nonce;
    wrapped_dek = wrapped_dek;
    ciphertext_len = ciphertext_len;
  })

unfoldable pub header_validate : VaultHeader → FcpResult (Unit {0})
header_validate h = do
  refuse_if (is_nil h.group_id) (format group_id_nil)
  refuse_if (not (length h.wrapped_dek == wrapped_dek_bytes)) (format wrapped_dek_length)
  refuse_if (ltb max_ciphertext_bytes h.ciphertext_len) (format ciphertext_too_long)

unfoldable pub record_validate : VaultRecord → FcpResult (Unit {0})
record_validate r = do
  header_validate r.header
  refuse_if (not (length r.ciphertext == r.header.ciphertext_len))
      (format ciphertext_length_mismatch)

pub record Cursor : Type 0 where
  pub bytes : Bytes
  pub position : ℕ

unfoldable pub cursor_take : ℕ → Cursor → FcpResult (Bytes × Cursor)
cursor_take n c = do
  refuse_if (leb u64_limit (c.position + n)) (format cursor_overflow)
  refuse_if (ltb (length c.bytes) (c.position + n)) (format vault_truncated)
  ok (take n (drop c.position c.bytes), record c { position = c.position + n })

unfoldable pub take_array : ℕ → Cursor → FcpResult (Bytes × Cursor)
take_array n c = do
  (value, c') ← cursor_take n c
  refuse_if (not (length value == n)) (format field_length_invalid)
  ok (value, c')

unfoldable pub require_u16 : Cursor → ℕ → Reason → FcpResult Cursor
require_u16 c expected field = do
  (value, c') ← take_array 2 c
  refuse_if (not (from_le value == expected)) (format field)
  ok c'

-- `Uuid::as_bytes` and `Uuid::from_bytes` of the uuid crate.
pub record UuidBytes : Type 0 where
  pub as_bytes : Uuid → Bytes
  pub from_bytes : Bytes → Uuid

module _ (u : UuidBytes) where
  unfoldable pub header_encode : VaultHeader → FcpResult Bytes
  header_encode h = do
    header_validate h
    ok (
        vault_magic
        ++ (le_bytes 2 vault_format_version
            ++ (le_bytes 2 (fixed_header_bytes)
                ++ (u.as_bytes h.group_id
                    ++ (le_bytes 2 aead_alg_aes_256_gcm
                        ++ (le_bytes 2 wrap_alg_rsa_2048_oaep_sha256
                            ++ (h.kek_key_id
                                ++ (h.nonce
                                    ++ (le_bytes 2 wrapped_dek_bytes
                                        ++ (h.wrapped_dek ++ le_bytes 4 h.ciphertext_len))))))))))

  unfoldable pub record_encode : VaultRecord → FcpResult Bytes
  record_encode r = do
    record_validate r
    bytes ← header_encode r.header
    ok (bytes ++ (r.ciphertext ++ r.tag))

  unfoldable pub record_decode : Bytes → FcpResult VaultRecord
  record_decode bytes = do
    refuse_if (ltb (length bytes) (fixed_header_bytes + gcm_tag_bytes)) (format vault_truncated)
    (magic, c1) ← take_array 4 (record { bytes = bytes; position = 0 })
    refuse_if (not (bytes_eq magic vault_magic)) (format vault_magic_mismatch)
    c2 ← require_u16 c1 vault_format_version format_version_unsupported
    c3 ← require_u16 c2 fixed_header_bytes header_len_unsupported
    (group_bytes, c4) ← take_array 16 c3
    c5 ← require_u16 c4 aead_alg_aes_256_gcm aead_alg_unsupported
    c6 ← require_u16 c5 wrap_alg_rsa_2048_oaep_sha256 wrap_alg_unsupported
    (kek_key_id, c7) ← take_array 16 c6
    (nonce, c8) ← take_array gcm_nonce_bytes c7
    c9 ← require_u16 c8 wrapped_dek_bytes wrapped_dek_len_unsupported
    (wrapped_dek, c10) ← cursor_take wrapped_dek_bytes c9
    (length_bytes, c11) ← take_array 4 c10
    refuse_if (ltb max_ciphertext_bytes (from_le length_bytes)) (format ciphertext_too_long)
    refuse_if (leb u64_limit (fixed_header_bytes + from_le length_bytes + gcm_tag_bytes))
        (format vault_length_overflow)
    refuse_if (not (length bytes == fixed_header_bytes + from_le length_bytes + gcm_tag_bytes))
        (format vault_length_mismatch)
    (ciphertext, c12) ← cursor_take (from_le length_bytes) c11
    (tag, c13) ← take_array gcm_tag_bytes c12
    header ←
        header_new (u.from_bytes group_bytes) kek_key_id nonce wrapped_dek (from_le length_bytes)
    let r : VaultRecord = record { header = header; ciphertext = ciphertext; tag = tag }
    record_validate r
    ok r
