-- ===== src/Tests/Vaults.antt =====
-- Records and files of a vault.
use fursoy_vault.Prelude.{
  if◌then◌else◌, Bytes, ℕ, ltb, Bool, true, ◌&&◌, Option, none, some, [], ◌∷◌, ◌≡◌, refl, arith, ap,
  length, replicate, All, IsByte, Bool-cases, bytes_eq, Bytes-discrete, eqb→eq, inl, inr, sym,
}
use fursoy_vault.Error.{FcpResult, ok, err, json, tpm, ok-injective}
use fursoy_vault.AtomicFile.{no_faults}
use fursoy_vault.Vault.Format.{VaultHeader, VaultRecord, record_encode, record_decode}
use fursoy_vault.Vault.Format.Fields.{layout}
use fursoy_vault.Vault.Format.RoundTrip.{HasWidths, decode-encode}
use fursoy_vault.Vault.Format.Canonical.{encode-decode}
use fursoy_vault.Vault.Sealed.{VaultPayload, VaultCrates, seal_record, open_record}
use fursoy_vault.Vault.Sealed.RoundTrip.{CratesLaws, reads_as, open_record-seal_record}
use fursoy_vault.Vault.Store.{VaultFiles, stage_delete, recover_staged_deletion}
use fursoy_vault.Vault.Store.Deletion.{SameFiles, staging_recovers}
use fursoy_vault.Transaction.{
  PreparedVaultWrite, Platform, kek_key_id, prepare_after_snapshot, commit_prepared,
}
use fursoy_vault.Transaction.Prepared.{IsPrepared, prepare_after_snapshot-IsPrepared}
use fursoy_vault.Transaction.Readable.{KeyLaws, Left, commit_prepared-Left}
use fursoy_vault.Tests.Fixtures.{uuid_bytes, uuid_laws, group, no_file, file_with}

abbrev payload : VaultPayload ℕ
payload = record { schema_version = 1; vault_sequence = 1; cookies = 8 ∷ [] }

abbrev payload_of : Bytes → FcpResult (VaultPayload ℕ)
payload_of [] = err json
payload_of (schema ∷ []) = err json
payload_of (schema ∷ n ∷ cookies) =
    ok (record { schema_version = schema; vault_sequence = n; cookies = cookies })

-- The cipher is the identity.
abbrev pub vault_crates : VaultCrates ℕ
vault_crates = record {
  encrypt_detached = λ dek nonce aad plaintext. some (plaintext, replicate 16 1);
  decrypt_detached = λ dek nonce aad ciphertext tag. some ciphertext;
  payload_json = λ p. ok (p.schema_version ∷ p.vault_sequence ∷ p.cookies);
  payload_of_json = payload_of;
}

vault_crates-CratesLaws : CratesLaws vault_crates
vault_crates-CratesLaws = record {
  decrypts = λ dek nonce aad plaintext ciphertext tag h.
      (cc h, ap length (same plaintext ciphertext tag h));
}
  where
    same :
        (plaintext ciphertext tag : Bytes)
        → ◌≡◌ {A = Option (Bytes × Bytes)}
            (some (plaintext, replicate 16 1))
            (some (ciphertext, tag))
        → ciphertext ≡ plaintext
    same plaintext ciphertext tag h = cc h

abbrev dek : Bytes
dek = replicate 32 3

abbrev sealed : VaultRecord
sealed = record {
  header = record {
    group_id = group;
    kek_key_id = kek_key_id;
    nonce = replicate 12 2;
    wrapped_dek = replicate 256 9;
    ciphertext_len = 3;
  };
  ciphertext = 1 ∷ 1 ∷ 8 ∷ [];
  tag = replicate 16 1;
}

abbrev encoded : Bytes
encoded = layout uuid_bytes sealed

encodes : record_encode uuid_bytes sealed ≡ ok encoded
unfolding record_encode fursoy_vault.Vault.Format.record_validate
    fursoy_vault.Vault.Format.header_validate fursoy_vault.Vault.Format.header_encode layout
encodes = refl

sealed-HasWidths : HasWidths sealed
sealed-HasWidths = record { group_id = omega arith; kek_key_id = refl; nonce = refl; tag = refl }

decode-encode_example : record_decode uuid_bytes encoded ≡ ok sealed
decode-encode_example = decode-encode uuid_bytes uuid_laws sealed encoded sealed-HasWidths encodes

abbrev are_bytes : Bytes → Bool
are_bytes [] = true
are_bytes (b ∷ bs) = ltb b 256 && are_bytes bs

are_bytes-All : (bs : Bytes) → are_bytes bs ≡ true → All IsByte bs
are_bytes-All [] h = tt
are_bytes-All (b ∷ bs) h = (ground arith, are_bytes-All bs (ground arith))

encoded_bytes : All IsByte encoded
unfolding layout
encoded_bytes = are_bytes-All encoded refl

decoded : record_decode uuid_bytes encoded ≡ ok sealed
decoded = decode-encode uuid_bytes uuid_laws sealed encoded sealed-HasWidths encodes

encode-decode_example : record_encode uuid_bytes sealed ≡ ok encoded
encode-decode_example = encode-decode uuid_bytes uuid_laws encoded sealed encoded_bytes decoded

seals :
    seal_record uuid_bytes vault_crates
      (ok (replicate 12 2))
      group
      kek_key_id
      (replicate 256 9)
      dek
      payload
    ≡ ok sealed
unfolding seal_record fursoy_vault.Vault.Format.header_new fursoy_vault.Vault.Format.header_encode
    fursoy_vault.Vault.Format.header_validate fursoy_vault.Vault.Sealed.encrypt
seals = refl

open_record-seal_record_example :
    (plaintext : Bytes) × (vault_crates.payload_json payload ≡ ok plaintext)
    × (open_record uuid_bytes vault_crates sealed dek ≡ reads_as vault_crates plaintext)
open_record-seal_record_example =
    open_record-seal_record uuid_bytes vault_crates vault_crates-CratesLaws (ok (replicate 12 2))
      group kek_key_id (replicate 256 9) dek payload sealed seals

abbrev files : VaultFiles
files = record { file = file_with (1 ∷ 2 ∷ []); staged = none }

abbrev staged_files : VaultFiles
staged_files = record { file = no_file; staged = some (1 ∷ 2 ∷ []) }

staging_recovers_example :
    let (r, v') = recover_staged_deletion true none (stage_delete none none files).1 in
    (r ≡ ok tt) × SameFiles files v'
staging_recovers_example = staging_recovers none none files refl

abbrev pub platform : Platform
platform = record {
  sha256 = λ bytes. bytes;
  ensure_exists = ok tt;
  wrap_dek = λ bytes. if bytes_eq bytes dek then ok (replicate 256 9) else err tpm;
  unwrap_dek = λ bytes. ok (replicate 32 3);
  generate_dek = ok (replicate 32 3);
  generate_nonce = ok (replicate 12 2);
}

abbrev prepared : PreparedVaultWrite
prepared = record {
  group_id = group;
  bytes = encoded;
  dek = dek;
  previous_digest = none;
  target_digest = encoded;
  vault_sequence = 1;
  commit_required = true;
}

abbrev no_files : VaultFiles
no_files = record { file = no_file; staged = none }

prepares :
    prepare_after_snapshot uuid_bytes vault_crates platform group none (8 ∷ []) no_files
    ≡ ok prepared
unfolding prepare_after_snapshot fursoy_vault.Transaction.prepare_first seal_record
    fursoy_vault.Vault.Format.header_new fursoy_vault.Vault.Format.header_encode
    fursoy_vault.Vault.Format.header_validate fursoy_vault.Vault.Sealed.encrypt record_encode
    fursoy_vault.Vault.Format.record_validate layout Bytes-discrete fursoy_vault.Prelude.ℕ_discrete
prepares = refl

prepare_after_snapshot-IsPrepared_example :
    IsPrepared uuid_bytes vault_crates platform no_files prepared
prepare_after_snapshot-IsPrepared_example =
    prepare_after_snapshot-IsPrepared uuid_bytes vault_crates platform group none (8 ∷ []) no_files
      prepared prepares

platform-KeyLaws : KeyLaws vault_crates platform
platform-KeyLaws = record {
  unwraps = λ key wrapped h. elim (Bool-cases (bytes_eq key dek)) [
    | inl e ↦ ap ok (sym (eqb→eq Bytes-discrete key dek e))
    | inr e ↦ absurd (cc (rw e at h))
  ];
  nonce_width = λ nonce h. ap length (sym (ok-injective h));
  tag_width = λ key nonce aad plaintext ciphertext tag h. same_tag plaintext ciphertext tag h;
}
  where
    same_tag :
        (plaintext ciphertext tag : Bytes)
        → ◌≡◌ {A = Option (Bytes × Bytes)}
            (some (plaintext, replicate 16 1))
            (some (ciphertext, tag))
        → length tag ≡ 16
    same_tag plaintext ciphertext tag h = let e : tag ≡ replicate 16 1 = cc h in ap length e

commit_prepared-Left_example :
    let (outcome, w') =
      commit_prepared uuid_bytes vault_crates platform group no_faults prepared no_files in
    Left uuid_bytes uuid_laws vault_crates platform platform-KeyLaws group
      (omega arith)
      prepared
      no_files
      outcome
      w'
commit_prepared-Left_example =
    commit_prepared-Left uuid_bytes uuid_laws vault_crates platform platform-KeyLaws group
      (omega arith) no_faults none (8 ∷ []) no_files no_files prepared prepares refl
