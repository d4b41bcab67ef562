-- ===== src/Lease/Ledger.antt =====
-- native-host/src/lease/state_machine.rs and lease/store.rs: the ledger of capabilities and the file
-- that it is persisted in. `LedgerHost` is the ledger in memory beside its file; a method returns
-- its result and the host, also on an error.
pub mod Keeps
pub mod Grants
pub mod Runs
use fursoy_vault.Prelude.{
  Bytes, bytes_eq, Uuid, is_nil, checked_suc, is_none, ℕ, suc, zero, ◌-◌, Bool, true, false, Option,
  none, some, List, [], ◌∷◌, ◌++◌, ◌==◌, leb, ltb, eqb, any, length, not, ℕ_discrete, if◌then◌else◌,
}
use fursoy_vault.Error.{
  FcpError, FcpResult, ok, err, ◌>>=◌, ◌>>◌, refuse_if, ok_or, io, capability, group_nil,
  already_pending, sequence_exhausted, group_mismatch, operation_mismatch, expired, expiry_too_far,
  sequence_replay, nonce_replay, none_pending, payload_mismatch, ledger_read_back_mismatch,
  ledger_of_another_group,
}
use fursoy_vault.AtomicFile.{FileState, Faults, next_faults, later_faults, write_verified}
use fursoy_vault.Lease.Capability.{
  CapabilityOperation, CapabilityOperation-discrete, CapabilityPayload, CapabilityPayload-discrete,
  SignedCapability, capability_max_lifetime_ms, validate_shape, new_payload,
}

abbrev pub replay_nonce_window : ℕ
replay_nonce_window = 128

pub record ConsumedCapability : Type 0 where
  pub account_group_id : Uuid
  pub operation : CapabilityOperation
  pub monotonic_sequence : ℕ  -- u64

pub record CapabilityLedger : Type 0 where
  pub account_group_id : Uuid
  pub last_issued_sequence : ℕ  -- u64
  pub last_consumed_sequence : ℕ  -- u64
  pub consumed_nonces : List Bytes
  pub pending : Option CapabilityPayload

unfoldable pub CapabilityLedger-discrete : Discrete CapabilityLedger
CapabilityLedger-discrete = hlevel ℕ_discrete

pub record LedgerHost : Type 0 where
  pub ledger : CapabilityLedger
  pub file : FileState
  pub faults : List Faults

-- serde_json for the ledger.
pub record LedgerJson : Type 0 where
  pub encode : CapabilityLedger → FcpResult Bytes
  pub decode : Bytes → FcpResult CapabilityLedger

unfoldable pub ledger_new : Uuid → FcpResult CapabilityLedger
ledger_new group = do
  refuse_if (is_nil group) (capability group_nil)
  ok (record {
    account_group_id = group;
    last_issued_sequence = 0;
    last_consumed_sequence = 0;
    consumed_nonces = [];
    pending = none;
  })

-- `while next.consumed_nonces.len() > REPLAY_NONCE_WINDOW { pop_front() }`
unfoldable pub trim_nonces : List Bytes → List Bytes
trim_nonces [] = []
trim_nonces (n ∷ ns) =
    let rest = trim_nonces ns in if ltb replay_nonce_window (length (n ∷ ns)) then rest else n ∷ ns

-- The checks of `verify_and_consume` on the ledger, in their order.
unfoldable pub check_consume :
    CapabilityPayload → CapabilityOperation → ℕ → CapabilityLedger → FcpResult (Unit {0})
check_consume p expected_operation now_unix_ms l = do
  refuse_if (not (p.account_group_id == l.account_group_id)) (capability group_mismatch)
  refuse_if (not (eqb CapabilityOperation-discrete p.operation expected_operation))
      (capability operation_mismatch)
  refuse_if (ltb p.expiry_unix_ms now_unix_ms) (capability expired)
  refuse_if (ltb capability_max_lifetime_ms (p.expiry_unix_ms - now_unix_ms))
      (capability expiry_too_far)
  refuse_if (leb p.monotonic_sequence l.last_consumed_sequence) (capability sequence_replay)
  refuse_if (any (bytes_eq p.nonce) l.consumed_nonces) (capability nonce_replay)
  pending ← ok_or l.pending (capability none_pending)
  refuse_if (not (eqb CapabilityPayload-discrete pending p)) (capability payload_mismatch)

abbrev pub consumed : CapabilityPayload → CapabilityLedger → CapabilityLedger
consumed p l = record l {
  last_consumed_sequence = p.monotonic_sequence;
  pending = none;
  consumed_nonces = trim_nonces (l.consumed_nonces ++ (p.nonce ∷ []));
}

abbrev pub reserved : CapabilityPayload → ℕ → CapabilityLedger → CapabilityLedger
reserved p sequence l = record l { last_issued_sequence = sequence; pending = some p }

-- The end of each method: `store.persist(&next)?; *self = next; Ok(answer)`.
abbrev pub settle {ℓ} :
    {A : Type ℓ}
    → A
    → CapabilityLedger
    → LedgerHost
    → FcpResult (Unit {0}) × FileState
    → FcpResult A × LedgerHost
settle answer next h (ok _, file) =
    (ok answer, record { ledger = next; file = file; faults = later_faults h.faults })
settle answer next h (err e, file) =
    (err e, record h { file = file; faults = later_faults h.faults })

module _ (j : LedgerJson) where
  -- The read-back check of `persist`.
  unfoldable pub verify_ledger : CapabilityLedger → Bytes → FcpResult (Unit {0})
  verify_ledger snapshot persisted = do
    verified ← j.decode persisted
    refuse_if (not (eqb CapabilityLedger-discrete verified snapshot))
        (capability ledger_read_back_mismatch)

  unfoldable pub persist_ledger {ℓ} :
      {A : Type ℓ} → A → CapabilityLedger → LedgerHost → FcpResult A × LedgerHost
  persist_ledger answer next h = elim (j.encode next) [
    | err e ↦ (err e, h)
    | ok bytes ↦
        settle answer next h
          (write_verified (next_faults h.faults) bytes (verify_ledger next) h.file)
  ]

  unfoldable pub load : Option FcpError → FileState → FcpResult CapabilityLedger
  load (some e) file = err e
  load none file = elim file.target [ none ↦ err io | some bytes ↦ j.decode bytes ]

  abbrev check_group : Uuid → CapabilityLedger → FcpResult CapabilityLedger
  check_group group l = do
    refuse_if (not (l.account_group_id == group)) (capability ledger_of_another_group)
    ok l

  abbrev hosting : FileState → List Faults → FcpResult CapabilityLedger → FcpResult LedgerHost
  hosting file faults (ok l) = ok (record { ledger = l; file = file; faults = faults })
  hosting file faults (err e) = err e

  abbrev pub host_of : FcpResult (Unit {0}) × LedgerHost → FcpResult LedgerHost
  host_of (ok _, h) = ok h
  host_of (err e, h) = err e

  abbrev initialize : FileState → List Faults → FcpResult CapabilityLedger → FcpResult LedgerHost
  initialize file faults (err e) = err e
  initialize file faults (ok l) =
      host_of (persist_ledger tt l (record { ledger = l; file = file; faults = faults }))

  unfoldable pub load_or_initialize :
      Option FcpError → FileState → List Faults → Uuid → FcpResult LedgerHost
  load_or_initialize fault file faults group = elim file.target [
    | some _ ↦ hosting file faults (load fault file >>= check_group group)
    | none ↦ initialize file faults (ledger_new group)
  ]

  -- `drawn` is what `fill_random` answers.
  unfoldable pub reserve :
      FcpResult Bytes
      → CapabilityOperation
      → ℕ
      → ℕ
      → LedgerHost
      → FcpResult CapabilityPayload × LedgerHost
  reserve drawn operation now_unix_ms lifetime_ms h =
      if not (is_none h.ledger.pending)
      then (err (capability already_pending), h)
      else elim (checked_suc h.ledger.last_issued_sequence) [
        | none ↦ (err (capability sequence_exhausted), h)
        | some sequence ↦
            elim (new_payload drawn h.ledger.account_group_id operation now_unix_ms lifetime_ms
              sequence) [
                | err e ↦ (err e, h)
                | ok p ↦ persist_ledger p (reserved p sequence h.ledger) h
              ]
      ]

  unfoldable pub cancel_pending : LedgerHost → FcpResult (Unit {0}) × LedgerHost
  cancel_pending h = persist_ledger tt (record h.ledger { pending = none }) h

  -- `verify_signature` is the platform's verifier.
  unfoldable pub verify_and_consume :
      (SignedCapability → FcpResult (Unit {0}))
      → SignedCapability
      → CapabilityOperation
      → ℕ
      → LedgerHost
      → FcpResult ConsumedCapability × LedgerHost
  verify_and_consume verify_signature signed expected_operation now_unix_ms h =
      elim (validate_shape signed.payload
        >> (verify_signature signed
            >> check_consume signed.payload expected_operation now_unix_ms h.ledger)) [
              | err e ↦ (err e, h)
              | ok _ ↦
                  persist_ledger
                    (record {
                      account_group_id = signed.payload.account_group_id;
                      operation = signed.payload.operation;
                      monotonic_sequence = signed.payload.monotonic_sequence;
                    })
                    (consumed signed.payload h.ledger) h
            ]
