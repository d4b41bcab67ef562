-- ===== src/Transaction.antt =====
-- native-host/src/transaction.rs: what a vault write is prepared from, and its commit. `k` is the
-- key service of the platform. The kek key id is a constant of the source.
pub mod Prepared
pub mod Authorization
pub mod Readable
use fursoy_vault.Prelude.{
  Bytes, Uuid, ℕ, suc, Bool, true, false, Option, none, some, List, [], ◌∷◌, checked_suc,
  if◌then◌else◌,
}
use fursoy_vault.Error.{
  FcpError, FcpResult, ok, err, ◌>>=◌, ◌>>◌, refuse_if, ok_or, protocol, format,
  vault_sequence_exhausted, empty_vault, vault_missing, Reason,
}
use fursoy_vault.Error
use fursoy_vault.AtomicFile
use fursoy_vault.AtomicFile.{Faults, WriteOutcome, success, failure}
use fursoy_vault.Vault.Format.{VaultRecord, UuidBytes, record_decode, record_encode}
use fursoy_vault.Vault.Sealed.{
  VaultPayload, VaultCrates, payload_schema_version, seal_record, open_record,
}
use fursoy_vault.Vault.Store.{VaultFiles, read_bytes, write_prepared}

abbrev pub kek_key_id : Bytes
kek_key_id =
    b'V' ∷ b'A' ∷ b'U' ∷ b'L' ∷ b'T' ∷ b'-' ∷ b'K' ∷ b'E' ∷ b'K' ∷ b'-' ∷ b'v' ∷ b'1' ∷ 0 ∷ 0 ∷ 0
    ∷ 0 ∷ []

pub record PreparedVaultWrite : Type 0 where
  pub group_id : Uuid
  pub bytes : Bytes
  pub dek : Bytes
  pub previous_digest : Option Bytes
  pub target_digest : Bytes
  pub vault_sequence : ℕ  -- u64
  pub commit_required : Bool

-- The platform's key service, the random source and sha2.
pub record Platform : Type 0 where
  pub sha256 : Bytes → Bytes
  pub ensure_exists : FcpResult (Unit {0})
  pub wrap_dek : Bytes → FcpResult Bytes
  pub unwrap_dek : Bytes → FcpResult Bytes
  pub generate_dek : FcpResult Bytes
  pub generate_nonce : FcpResult Bytes

module _ {C : Type 0} (u : UuidBytes) (c : VaultCrates C) (k : Platform) (group_id : Uuid) where
  abbrev payload_with : ℕ → List C → VaultPayload C
  payload_with n cookies = record {
    schema_version = payload_schema_version;
    vault_sequence = n;
    cookies = cookies;
  }

  -- The group has a vault: its payload is replaced.
  unfoldable pub prepare_replacement : Bytes → List C → FcpResult PreparedVaultWrite
  prepare_replacement previous_bytes cookies = do
    existing ← record_decode u previous_bytes
    dek ← k.unwrap_dek existing.header.wrapped_dek
    previous ← open_record u c existing dek
    elim cookies [
      | [] ↦ ok (record {
        group_id = group_id;
        bytes = previous_bytes;
        dek = dek;
        previous_digest = some (k.sha256 previous_bytes);
        target_digest = k.sha256 previous_bytes;
        vault_sequence = previous.vault_sequence;
        commit_required = false;
      })
      | first ∷ others ↦ do
        vault_sequence ←
            ok_or (checked_suc previous.vault_sequence) (format vault_sequence_exhausted)
        replacement ←
            seal_record u c k.generate_nonce group_id existing.header.kek_key_id
              existing.header.wrapped_dek dek (payload_with vault_sequence (first ∷ others))
        bytes ← record_encode u replacement
        ok (record {
          group_id = group_id;
          bytes = bytes;
          dek = dek;
          previous_digest = some (k.sha256 previous_bytes);
          target_digest = k.sha256 bytes;
          vault_sequence = vault_sequence;
          commit_required = true;
        })
    ]

  -- The group has no vault yet.
  unfoldable pub prepare_first : List C → FcpResult PreparedVaultWrite
  prepare_first [] = err (protocol empty_vault)
  prepare_first (cookie ∷ cookies) = do
    k.ensure_exists
    dek ← k.generate_dek
    wrapped_dek ← k.wrap_dek dek
    r ←
        seal_record u c k.generate_nonce group_id kek_key_id wrapped_dek dek
          (payload_with 1 (cookie ∷ cookies))
    bytes ← record_encode u r
    ok (record {
      group_id = group_id;
      bytes = bytes;
      dek = dek;
      previous_digest = none;
      target_digest = k.sha256 bytes;
      vault_sequence = 1;
      commit_required = true;
    })

  unfoldable pub prepare_after_snapshot :
      Option FcpError → List C → VaultFiles → FcpResult PreparedVaultWrite
  prepare_after_snapshot read_fault cookies v = elim v.file.target [
    | none ↦ prepare_first cookies
    | some _ ↦ do
      previous_bytes ← read_bytes read_fault v
      prepare_replacement previous_bytes cookies
  ]

  unfoldable pub commit_prepared :
      Faults → PreparedVaultWrite → VaultFiles → WriteOutcome × VaultFiles
  commit_prepared faults p v =
      if p.commit_required
      then write_prepared u c faults p.group_id p.bytes p.dek v
      else (success AtomicFile.committed, v)

  -- `map_err(|failure| failure.error)?` and the sequence.
  abbrev sequence_of : ℕ → WriteOutcome × VaultFiles → FcpResult ℕ × VaultFiles
  sequence_of n (success _, v) = (ok n, v)
  sequence_of n (failure _ e, v) = (err e, v)

  abbrev commit_result :
      Faults → FcpResult PreparedVaultWrite → VaultFiles → FcpResult ℕ × VaultFiles
  commit_result faults (err e) v = (err e, v)
  commit_result faults (ok p) v = sequence_of p.vault_sequence (commit_prepared faults p v)

  unfoldable pub enroll : Option FcpError → Faults → List C → VaultFiles → FcpResult ℕ × VaultFiles
  enroll read_fault faults cookies v = elim v.file.target [
    | some _ ↦ (err (format Error.vault_exists), v)
    | none ↦ commit_result faults (prepare_after_snapshot read_fault cookies v) v
  ]

  unfoldable pub update_after_snapshot :
      Option FcpError → Faults → List C → VaultFiles → FcpResult ℕ × VaultFiles
  update_after_snapshot read_fault faults cookies v = elim v.file.target [
    | none ↦ (err (format vault_missing), v)
    | some _ ↦ commit_result faults (prepare_after_snapshot read_fault cookies v) v
  ]
