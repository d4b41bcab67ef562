-- ===== src/Lease/Capability.antt =====
-- native-host/src/protocol/messages.rs and crypto/capability.rs: the payload of a capability, its
-- canonical bytes and its shape.
use fursoy_vault.Prelude.{
  Bytes, Uuid, is_nil, u64_limit, ℕ, ◌+◌, Bool, true, [], ◌∷◌, ◌++◌, ◌==◌, leb, ltb, ◌||◌, ◌&&◌,
  ℕ_discrete, le_bytes,
}
use fursoy_vault.Error.{
  FcpResult, ok, ◌>>=◌, ◌>>◌, refuse_if, capability, lifetime_out_of_range, expiry_overflow,
  group_nil, sequence_zero, nonce_zero,
}
use fursoy_vault.Vault.Format.{UuidBytes}

abbrev pub capability_max_lifetime_ms : ℕ
capability_max_lifetime_ms = 60000

pub data CapabilityOperation : Type 0 where
  inject recover_profile : CapabilityOperation

unfoldable pub CapabilityOperation-discrete : Discrete CapabilityOperation
CapabilityOperation-discrete = hlevel

abbrev operation_code : CapabilityOperation → ℕ
operation_code inject = 1
operation_code recover_profile = 2

pub record CapabilityPayload : Type 0 where
  pub account_group_id : Uuid
  pub operation : CapabilityOperation
  pub expiry_unix_ms : ℕ  -- u64
  pub monotonic_sequence : ℕ  -- u64
  pub nonce : Bytes

unfoldable pub CapabilityPayload-discrete : Discrete CapabilityPayload
CapabilityPayload-discrete = hlevel ℕ_discrete

pub record SignedCapability : Type 0 where
  pub payload : CapabilityPayload
  pub signature : Bytes
  pub proof_context : Bytes

-- The text "FCPHCAP1".
abbrev pub capability_domain : Bytes
capability_domain = b'F' ∷ b'C' ∷ b'P' ∷ b'H' ∷ b'C' ∷ b'A' ∷ b'P' ∷ b'1' ∷ []

unfoldable pub canonical_bytes : UuidBytes → CapabilityPayload → Bytes
canonical_bytes u p =
    capability_domain
    ++ (u.as_bytes p.account_group_id
        ++ (operation_code p.operation
            ∷ (le_bytes 8 p.expiry_unix_ms ++ (le_bytes 8 p.monotonic_sequence ++ p.nonce))))

abbrev all_zero : Bytes → Bool
all_zero [] = true
all_zero (b ∷ bs) = b == 0 && all_zero bs

unfoldable pub validate_shape : CapabilityPayload → FcpResult (Unit {0})
validate_shape p = do
  refuse_if (is_nil p.account_group_id) (capability group_nil)
  refuse_if (p.monotonic_sequence == 0) (capability sequence_zero)
  refuse_if (all_zero p.nonce) (capability nonce_zero)

-- `drawn` is what `fill_random` answers.
unfoldable pub new_payload :
    FcpResult Bytes → Uuid → CapabilityOperation → ℕ → ℕ → ℕ → FcpResult CapabilityPayload
new_payload drawn group operation now_unix_ms lifetime_ms sequence = do
  refuse_if (lifetime_ms == 0 || ltb capability_max_lifetime_ms lifetime_ms)
      (capability lifetime_out_of_range)
  refuse_if (leb u64_limit (now_unix_ms + lifetime_ms)) (capability expiry_overflow)
  nonce ← drawn
  let p : CapabilityPayload = record {
    account_group_id = group;
    operation = operation;
    expiry_unix_ms = now_unix_ms + lifetime_ms;
    monotonic_sequence = sequence;
    nonce = nonce;
  }
  validate_shape p
  ok p
