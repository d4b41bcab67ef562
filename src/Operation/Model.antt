-- ===== src/Operation/Model.antt =====
-- native-host/src/operation/model.rs: phases, requests, the journal and its validation. A `Uuid` is
-- the 128-bit number that it stands for, and the nil UUID is 0.
pub mod Validity
use fursoy_vault.Prelude.{
  Bytes, bytes_eq, Bytes-discrete, OptionBytes-discrete, Uuid, is_nil, is_some_nil, is_none,
  u64_limit, checked_suc, ℕ, suc, Bool, true, false, Option, none, some, List, [], ◌∷◌, ◌≡◌,
  ℕ_discrete, eqb, ◌==◌, leb, ltb, length, any, not, ◌&&◌, ◌||◌, if◌then◌else◌,
}
use fursoy_vault.Error.{
  FcpResult, ok, err, ◌>>=◌, ◌>>◌, refuse_if, protocol, format, operation_id_nil, attempt_id_nil,
  reason_code_not_canonical, journal_identity_mismatch, journal_sequence_invalid,
  journal_fingerprint_mismatch, committed_without_snapshot, high_water_mismatch,
}

abbrev pub operation_journal_version : ℕ
operation_journal_version = 1

pub data OperationKind : Type 0 where
  enrollment eviction reconciliation : OperationKind

pub data OperationPhase : Type 0 where
  not_committed durability_unknown committed browser_removal_pending : OperationPhase
  completed aborted reconciliation_required : OperationPhase

unfoldable pub OperationPhase-discrete : Discrete OperationPhase
OperationPhase-discrete = hlevel

abbrev pub phase_eq : OperationPhase → OperationPhase → Bool
phase_eq = eqb OperationPhase-discrete

unfoldable pub can_transition_to : OperationPhase → OperationPhase → Bool
can_transition_to not_committed durability_unknown = true
can_transition_to not_committed committed = true
can_transition_to not_committed aborted = true
can_transition_to not_committed reconciliation_required = true
can_transition_to durability_unknown not_committed = true
can_transition_to durability_unknown committed = true
can_transition_to durability_unknown reconciliation_required = true
can_transition_to committed browser_removal_pending = true
can_transition_to committed reconciliation_required = true
can_transition_to browser_removal_pending completed = true
can_transition_to browser_removal_pending reconciliation_required = true
can_transition_to _ _ = false

unfoldable pub is_terminal : OperationPhase → Bool
is_terminal completed = true
is_terminal aborted = true
is_terminal reconciliation_required = true
is_terminal _ = false

-- The phases that `validate` wants a snapshot binding for.
unfoldable pub needs_snapshot : OperationPhase → Bool
needs_snapshot committed = true
needs_snapshot browser_removal_pending = true
needs_snapshot completed = true
needs_snapshot _ = false

pub record OperationRequest : Type 0 where
  pub operation_id : Uuid
  pub attempt_id : Option Uuid
  pub kind : OperationKind
  pub lease_id : Option Uuid
  pub reason_code : Bytes
  pub base_vault_sequence : ℕ  -- u64

abbrev is_reason_byte : ℕ → Bool
is_reason_byte b = (leb b'a' b && leb b b'z') || (leb b'0' b && leb b b'9') || b == b'_'

abbrev all_reason_bytes : Bytes → Bool
all_reason_bytes [] = true
all_reason_bytes (b ∷ bs) = is_reason_byte b && all_reason_bytes bs

unfoldable pub request_validate : OperationRequest → FcpResult (Unit {0})
request_validate r = do
  refuse_if (is_nil r.operation_id) (protocol operation_id_nil)
  refuse_if (is_some_nil r.attempt_id) (protocol attempt_id_nil)
  refuse_if
      (length r.reason_code == 0
        || ltb 64 (length r.reason_code)
        || not (all_reason_bytes r.reason_code))
      (protocol reason_code_not_canonical)

-- What the fingerprint binds; the domain is the text "FCP-OP-REQUEST-1".
pub record BoundRequest : Type 0 where
  pub domain : Bytes
  pub account_group_id : Uuid
  pub request : OperationRequest

abbrev request_domain : Bytes
request_domain =
    b'F' ∷ b'C' ∷ b'P' ∷ b'-' ∷ b'O' ∷ b'P' ∷ b'-' ∷ b'R' ∷ b'E' ∷ b'Q' ∷ b'U' ∷ b'E' ∷ b'S' ∷ b'T'
    ∷ b'-' ∷ b'1' ∷ []

pub record SnapshotBinding : Type 0 where
  pub snapshot_tag : Bytes
  pub previous_vault_digest : Option Bytes
  pub target_vault_digest : Bytes
  pub target_vault_sequence : ℕ  -- u64
  pub cookie_count : ℕ  -- u32
  pub aggregate_bytes : ℕ  -- u64

unfoldable pub SnapshotBinding-discrete : Discrete SnapshotBinding
SnapshotBinding-discrete = hlevel ℕ_discrete

pub record JournalOperation : Type 0 where
  pub operation_id : Uuid
  pub attempt_id : Option Uuid
  pub sequence : ℕ  -- u64
  pub request_fingerprint : Bytes
  pub kind : OperationKind
  pub lease_id : Option Uuid
  pub reason_code : Bytes
  pub base_vault_sequence : ℕ  -- u64
  pub phase : OperationPhase
  pub snapshot : Option SnapshotBinding

pub record OperationJournal : Type 0 where
  pub version : ℕ  -- u16
  pub account_group_id : Uuid
  pub sequence_high_water : ℕ  -- u64
  pub operations : List JournalOperation

unfoldable pub OperationJournal-discrete : Discrete OperationJournal
OperationJournal-discrete = hlevel ℕ_discrete

unfoldable pub journal_empty : Uuid → OperationJournal
journal_empty group = record {
  version = operation_journal_version;
  account_group_id = group;
  sequence_high_water = 0;
  operations = [];
}

-- The crates that the journal calls: sha2, and serde_json's encoders and decoder.
pub record Externals : Type 0 where
  pub sha256 : Bytes → Bytes
  pub request_json : BoundRequest → FcpResult Bytes
  pub journal_json : OperationJournal → FcpResult Bytes
  pub journal_of_json : Bytes → FcpResult OperationJournal

abbrev pub request_of : JournalOperation → OperationRequest
request_of o = record {
  operation_id = o.operation_id;
  attempt_id = o.attempt_id;
  kind = o.kind;
  lease_id = o.lease_id;
  reason_code = o.reason_code;
  base_vault_sequence = o.base_vault_sequence;
}

module _ (x : Externals) where
  unfoldable pub fingerprint : OperationRequest → Uuid → FcpResult Bytes
  fingerprint r group = do
    request_validate r
    bytes ←
        x.request_json (record { domain = request_domain; account_group_id = group; request = r })
    ok (x.sha256 bytes)

  -- One round of the loop of `validate`; `seen` is the set of ids so far.
  unfoldable pub check_operation :
      Uuid → ℕ → ℕ → List Uuid → JournalOperation → FcpResult (Unit {0})
  check_operation group high_water previous seen o = do
    refuse_if
        (leb o.sequence previous
          || ltb high_water o.sequence
          || is_nil o.operation_id
          || any (λ u. u == o.operation_id) seen)
        (format journal_sequence_invalid)
    computed ← fingerprint (request_of o) group
    refuse_if (not (bytes_eq computed o.request_fingerprint)) (format journal_fingerprint_mismatch)
    refuse_if (needs_snapshot o.phase && is_none o.snapshot) (format committed_without_snapshot)

  unfoldable pub check_operations :
      Uuid → ℕ → ℕ → List Uuid → List JournalOperation → FcpResult (Unit {0})
  check_operations group high_water previous seen [] =
      refuse_if (not (previous == high_water)) (format high_water_mismatch)
  check_operations group high_water previous seen (o ∷ os) =
      let rest = check_operations group high_water o.sequence (o.operation_id ∷ seen) os in
      do check_operation group high_water previous seen o; rest

  unfoldable pub journal_validate : OperationJournal → Uuid → FcpResult (Unit {0})
  journal_validate j expected_group = do
    refuse_if
        (not (j.version == operation_journal_version) || not (j.account_group_id == expected_group))
        (format journal_identity_mismatch)
    check_operations expected_group j.sequence_high_water 0 [] j.operations
