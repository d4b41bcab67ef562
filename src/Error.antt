-- ===== src/Error.antt =====
-- native-host/src/error.rs: the error type and the result type of the host.
use fursoy_vault.Prelude.{◌≡◌, refl, Bool, true, false, Option, none, some, ◌⊎◌, inl, inr}

-- The text of an error is named, so that the branches of an operation stay distinct.
pub data Reason : Type 0 where
  operation_id_nil attempt_id_nil reason_code_not_canonical : Reason
  journal_identity_mismatch journal_sequence_invalid journal_fingerprint_mismatch : Reason
  committed_without_snapshot high_water_mismatch : Reason
  operation_id_reused operation_sequence_exhausted : Reason
  snapshot_phase_closed snapshot_conflict : Reason
  illegal_transition commit_without_snapshot unknown_operation : Reason
  journal_read_back_mismatch unexpected_write_result journal_unclassified : Reason
  no_snapshot_binding no_profile_binding no_committed_snapshot : Reason
  profile_id_nil profile_binding_changed operation_unresolved host_id_collided : Reason
  operation_binding_mismatch vault_unclassified : Reason
  no_parent_directory no_file_name : Reason
  group_id_nil wrapped_dek_length ciphertext_too_long ciphertext_length_mismatch : Reason
  vault_truncated vault_magic_mismatch vault_length_mismatch vault_length_overflow : Reason
  cursor_overflow field_length_invalid : Reason
  format_version_unsupported header_len_unsupported aead_alg_unsupported : Reason
  wrap_alg_unsupported wrapped_dek_len_unsupported payload_schema_unsupported : Reason
  prepared_bytes_changed prepared_group_mismatch : Reason
  key_length_invalid encryption_failed authentication_failed : Reason
  vault_sequence_exhausted empty_vault vault_missing vault_exists : Reason
  deletion_already_staged restore_over_vault snapshot_too_long : Reason
  lifetime_out_of_range expiry_overflow group_nil sequence_zero nonce_zero : Reason
  already_pending sequence_exhausted group_mismatch operation_mismatch expired : Reason
  expiry_too_far sequence_replay nonce_replay none_pending payload_mismatch : Reason
  ledger_read_back_mismatch ledger_of_another_group signature_mismatch : Reason
  token_of_another_group token_operation_mismatch : Reason
  monitor_id_nil monitor_severity monitor_count monitor_source poll_out_of_range : Reason
  frame_length_out_of_range protocol_unsupported nonce_mismatch : Reason
  sequence_overflow sequence_unexpected message_id_nil : Reason
  mac_length_invalid mac_not_hex mac_not_canonical : Reason
  hmac_key_too_long hmac_mismatch audit_key_length audit_key_missing audit_anchor_missing : Reason
  audit_anchor_malformed audit_checkpoint_malformed audit_truncated_line : Reason
  audit_sequence_gap audit_previous_mac audit_anchor_mac audit_sequence_overflow : Reason
  audit_truncation audit_segment_empty protected_read_back audit_event_id_nil : Reason
  outbox_read_back_mismatch : Reason
  config_version group_count group_id_invalid empty_required_field scopes_overlap : Reason
  scope_invalid : Reason
  closed_before_handshake handshake_expected version_changed outgoing_overflow : Reason
  caller_not_authorized : Reason
  metadata_version metadata_group transition_exhausted protocol_floor_unsupported : Reason
  vault_without_metadata metadata_read_back : Reason
  authorization_group authorization_operation : Reason

pub data FcpError : Type 0 where
  io json windows tpm : FcpError
  crypto format protocol capability user_actionable : Reason → FcpError
  user_verification_not_configured : FcpError

pub data FcpResult {ℓ} (A : Type ℓ) : Type ℓ where
  ok : A → FcpResult A
  err : FcpError → FcpResult A

-- The `?` operator.
infixl 5 ◌>>=◌ ◌>>◌
abbrev pub ◌>>=◌ {ℓ κ} : {A : Type ℓ} {B : Type κ} → FcpResult A → (A → FcpResult B) → FcpResult B
ok a >>= f = f a
err e >>= f = err e

abbrev pub ◌>>◌ {ℓ} : {B : Type ℓ} → FcpResult (Unit {0}) → FcpResult B → FcpResult B
m >> k = m >>= λ _. k

-- `if test { return Err(e) }`
abbrev pub refuse_if : Bool → FcpError → FcpResult (Unit {0})
refuse_if true e = err e
refuse_if false e = ok tt

-- `Option::ok_or_else`
abbrev pub ok_or {ℓ} : {A : Type ℓ} → Option A → FcpError → FcpResult A
ok_or none e = err e
ok_or (some a) e = ok a

pub >>=-eq-ok {ℓ κ} :
    {X : Type ℓ} {Y : Type κ} (first : FcpResult X) (next : X → FcpResult Y) {y : Y}
    → (first >>= next) ≡ ok y
    → (x : X) × (first ≡ ok x) × (next x ≡ ok y)
>>=-eq-ok (err e) next h = cc
>>=-eq-ok (ok x) next h = (x, refl, h)

pub ok-injective {ℓ} : {A : Type ℓ} {a b : A} → ok a ≡ ok b → a ≡ b
ok-injective h = cc

pub FcpResult-cases {ℓ} :
    {A : Type ℓ} (r : FcpResult A) → ((a : A) × (r ≡ ok a)) ⊎ ((e : FcpError) × (r ≡ err e))
FcpResult-cases (ok a) = inl (a, refl)
FcpResult-cases (err e) = inr (e, refl)
