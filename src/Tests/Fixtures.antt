-- ===== src/Tests/Fixtures.antt =====
-- Stand-ins for the crates: the digest is the first two bytes, and a journal of at most one operation is
-- written as the code of its phase and a flag for its snapshot.
use fursoy_vault.Prelude.{
  Bytes, Uuid, ℕ, Option, none, some, List, [], ◌∷◌, take, ◌==◌, le_bytes, from_le, length-le_bytes,
  from_le-le_bytes, le_bytes-from_le, if◌then◌else◌,
}
use fursoy_vault.Error.{FcpResult, ok, err, json}
use fursoy_vault.AtomicFile.{FileState, settled}
use fursoy_vault.Operation.Model.{
  eviction, OperationPhase, not_committed, durability_unknown, committed, browser_removal_pending,
  completed, aborted, reconciliation_required, OperationRequest, SnapshotBinding, JournalOperation,
  OperationJournal, Externals,
}
use fursoy_vault.Operation.Journal.{JournalStore, operation_of}
use fursoy_vault.Vault.Format.{UuidBytes}
use fursoy_vault.Vault.Format.RoundTrip.{UuidLaws}

abbrev pub uuid_bytes : UuidBytes
uuid_bytes = record { as_bytes = le_bytes 16; from_bytes = from_le }

pub uuid_laws : UuidLaws uuid_bytes
uuid_laws = record {
  as_bytes_width = length-le_bytes 16;
  from_as_bytes = λ g h. from_le-le_bytes 16 g h;
  as_from_bytes = λ b l h. le_bytes-from_le 16 b l h;
}

abbrev pub group : Uuid
group = 5

abbrev pub eviction_request : OperationRequest
eviction_request = record {
  operation_id = 7;
  attempt_id = none;
  kind = eviction;
  lease_id = none;
  reason_code = b'a' ∷ [];
  base_vault_sequence = 3;
}

abbrev pub request_digest : Bytes
request_digest = 7 ∷ b'a' ∷ []

abbrev pub snapshot : Bytes
snapshot = 1 ∷ 2 ∷ []

abbrev pub binding : SnapshotBinding
binding = record {
  snapshot_tag = 4 ∷ [];
  previous_vault_digest = some (10 ∷ []);
  target_vault_digest = 11 ∷ [];
  target_vault_sequence = 4;
  cookie_count = 2;
  aggregate_bytes = 2;
}

abbrev pub operation_in : OperationPhase → Option SnapshotBinding → JournalOperation
operation_in phase bound = record (operation_of eviction_request 1 request_digest) {
  phase = phase;
  snapshot = bound;
}

abbrev pub journal_of : List JournalOperation → ℕ → OperationJournal
journal_of operations high_water = record {
  version = 1;
  account_group_id = group;
  sequence_high_water = high_water;
  operations = operations;
}

abbrev phase_code : OperationPhase → ℕ
phase_code not_committed = 0
phase_code durability_unknown = 1
phase_code committed = 2
phase_code browser_removal_pending = 3
phase_code completed = 4
phase_code aborted = 5
phase_code reconciliation_required = 6

abbrev phase_of : ℕ → OperationPhase
phase_of n =
    if n == 0
    then not_committed
    else if n == 1
    then durability_unknown
    else if n == 2
    then committed
    else if n == 3
    then browser_removal_pending
    else if n == 4
    then completed
    else if n == 5
    then aborted
    else reconciliation_required

abbrev snapshot_code : Option SnapshotBinding → ℕ
snapshot_code none = 0
snapshot_code (some _) = 1

abbrev encode_operations : List JournalOperation → Bytes
encode_operations [] = []
encode_operations (o ∷ os) = phase_code o.phase ∷ snapshot_code o.snapshot ∷ []

abbrev decode_journal : SnapshotBinding → Bytes → FcpResult OperationJournal
decode_journal b [] = ok (journal_of [] 0)
decode_journal b (phase ∷ []) = err json
decode_journal b (phase ∷ bound ∷ _) =
    ok (journal_of (operation_in (phase_of phase) (if bound == 0 then none else some b) ∷ []) 1)

-- The crates, where `b` is the binding that a decoded snapshot stands for.
abbrev pub crates_for : SnapshotBinding → Externals
crates_for b = record {
  sha256 = take 2;
  request_json = λ r. ok (r.request.operation_id ∷ r.request.reason_code);
  journal_json = λ j. ok (encode_operations j.operations);
  journal_of_json = decode_journal b;
}

abbrev pub crates : Externals
crates = crates_for binding

abbrev pub no_file : FileState
no_file = settled none

abbrev pub file_with : Bytes → FileState
file_with bytes = settled (some bytes)

abbrev pub empty_store : JournalStore
empty_store = record {
  file = no_file;
  faults = [];
  account_group_id = group;
  journal = journal_of [] 0;
}

abbrev pub store_with : JournalOperation → JournalStore
store_with o = record {
  file = file_with (encode_operations (o ∷ []));
  faults = [];
  account_group_id = group;
  journal = journal_of (o ∷ []) 1;
}
