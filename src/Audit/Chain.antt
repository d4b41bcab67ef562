-- ===== src/Audit/Chain.antt =====
-- native-host/src/audit.rs: the entries of the log, their codes and the check of the whole chain. A text
-- is its bytes. The segments are the files `audit-v2-day-N.jsonl` in the order of `chain_files`, each
-- with its day.
pub mod Linked
pub mod Authentic
use fursoy_vault.Prelude.{
  Bytes, bytes_eq, Uuid, u64_limit, checked_suc, ℕ, ◌+◌, ◌-◌, Bool, true, false, ◌&&◌, ◌||◌, Option,
  none, some, List, [], ◌∷◌, ◌++◌, not, ◌==◌, ltb, leb, length, replicate, if◌then◌else◌,
}
use fursoy_vault.Error.{
  FcpResult, ok, err, ◌>>=◌, ◌>>◌, refuse_if, ok_or, format, crypto, hmac_key_too_long,
  hmac_mismatch, audit_truncated_line, audit_sequence_gap, audit_previous_mac, audit_anchor_mac,
  audit_sequence_overflow, audit_truncation,
}
use fursoy_vault.Operation.Fingerprint.{hmac_sha256}
use fursoy_vault.Audit.Hex.{encode_hex, decode_mac}
use fursoy_vault.Audit.Lines.{lines_of, is_whole}

abbrev pub audit_schema_version : ℕ
audit_schema_version = 2

abbrev pub zero_mac : Bytes
zero_mac = replicate 32 0

pub record UnsignedAuditEntry : Type 0 where
  pub schema_version : ℕ  -- u8
  pub sequence : ℕ  -- u64
  pub previous_mac : Bytes
  pub timestamp_unix_ms : ℕ  -- u64
  pub account_group_id : Option Uuid
  pub event : Bytes
  pub outcome : Bytes
  pub operation_id : Option Uuid
  pub detail_code : Option Bytes
  pub audit_event_id : Option Uuid

pub record AuditEntry : Type 0 where
  pub schema_version : ℕ  -- u8
  pub sequence : ℕ  -- u64
  pub previous_mac : Bytes
  pub timestamp_unix_ms : ℕ  -- u64
  pub account_group_id : Option Uuid
  pub event : Bytes
  pub outcome : Bytes
  pub operation_id : Option Uuid
  pub detail_code : Option Bytes
  pub audit_event_id : Option Uuid
  pub mac : Bytes

pub record AuditAnchor : Type 0 where
  pub schema_version : ℕ  -- u8
  pub sequence : ℕ  -- u64
  pub mac : Bytes

pub record AuditCheckpoint : Type 0 where
  pub schema_version : ℕ  -- u8
  pub sequence : ℕ  -- u64
  pub mac : Bytes
  pub archived_through_day : ℕ  -- u64

pub record AuditOutboxEntry : Type 0 where
  pub audit_event_id : Uuid
  pub account_group_id : Uuid
  pub event : Bytes
  pub outcome : Bytes
  pub operation_id : Option Uuid
  pub detail_code : Option Bytes

-- sha2 and serde_json, and the protection of a file by the platform's local secret.
pub record AuditCrates : Type 0 where
  pub sha256 : Bytes → Bytes
  pub unsigned_json : UnsignedAuditEntry → FcpResult Bytes
  pub entry_json : AuditEntry → FcpResult Bytes
  pub entry_of_json : Bytes → FcpResult AuditEntry
  pub anchor_json : AuditAnchor → FcpResult Bytes
  pub anchor_of_json : Bytes → FcpResult AuditAnchor
  pub checkpoint_json : AuditCheckpoint → FcpResult Bytes
  pub checkpoint_of_json : Bytes → FcpResult AuditCheckpoint
  pub outbox_json : List AuditOutboxEntry → FcpResult Bytes
  pub outbox_of_json : Bytes → FcpResult (List AuditOutboxEntry)
  pub protect : Bytes → FcpResult Bytes
  pub unprotect : Bytes → FcpResult Bytes

pub record Segment : Type 0 where
  pub day : ℕ  -- u64
  pub bytes : Bytes

pub record VerifiedTail : Type 0 where
  pub sequence : ℕ  -- u64
  pub mac : Bytes

-- The three variables of the loop of `verify_chain`.
pub record Progress : Type 0 where
  pub expected_sequence : ℕ  -- u64
  pub previous_mac : Bytes
  pub anchor_matched : Bool

-- The unsigned part of an entry.
abbrev pub unsigned_of : AuditEntry → UnsignedAuditEntry
unsigned_of e = record {
  schema_version = e.schema_version;
  sequence = e.sequence;
  previous_mac = e.previous_mac;
  timestamp_unix_ms = e.timestamp_unix_ms;
  account_group_id = e.account_group_id;
  event = e.event;
  outcome = e.outcome;
  operation_id = e.operation_id;
  detail_code = e.detail_code;
  audit_event_id = e.audit_event_id;
}

-- No pair of bytes of the two arrays differs: the fold over `zip` leaves no bit.
unfoldable pub no_difference : Bytes → Bytes → Bool
no_difference [] expected = true
no_difference (a ∷ actual) [] = true
no_difference (a ∷ actual) (e ∷ expected) = a == e && no_difference actual expected

-- `anchor.is_some_and(|value| value.sequence == sequence)`
abbrev pub names : Option AuditAnchor → ℕ → Bool
names none n = false
names (some a) n = a.sequence == n

abbrev pub differs : Option AuditAnchor → Bytes → Bool
differs none mac = false
differs (some a) mac = not (bytes_eq a.mac mac)

abbrev pub checkpoint_sequence : Option AuditCheckpoint → ℕ
checkpoint_sequence none = 0
checkpoint_sequence (some c) = c.sequence

abbrev pub checkpoint_mac : Option AuditCheckpoint → FcpResult Bytes
checkpoint_mac none = ok zero_mac
checkpoint_mac (some c) = decode_mac c.mac

-- `checkpoint.map_or(1, |value| value.sequence.saturating_add(1))`
abbrev pub first_sequence : Option AuditCheckpoint → ℕ
first_sequence none = 1
first_sequence (some c) = if ltb (c.sequence + 1) u64_limit then c.sequence + 1 else u64_limit - 1

-- `anchor.is_none_or(|value| value.sequence <= …)`
abbrev pub within : Option AuditAnchor → ℕ → Bool
within none n = true
within (some a) n = leb a.sequence n

abbrev pub cut_off : Option AuditAnchor → ℕ → Bool → Bool
cut_off none n matched = false
cut_off (some a) n matched = ltb n a.sequence || not matched

module _ (x : AuditCrates) where
  unfoldable pub calculate_mac : Bytes → Bytes → FcpResult Bytes
  calculate_mac key bytes = do
    refuse_if (ltb 64 (length key)) (crypto hmac_key_too_long)
    ok (hmac_sha256 x.sha256 key bytes)

  unfoldable pub verify_mac : Bytes → Bytes → Bytes → FcpResult (Unit {0})
  verify_mac key bytes expected = do
    actual ← calculate_mac key bytes
    refuse_if (not (no_difference actual expected)) (format hmac_mismatch)

  -- One round of the inner loop.
  unfoldable pub verify_line : Bytes → Option AuditAnchor → Progress → Bytes → FcpResult Progress
  verify_line key anchor p line = do
    entry ← x.entry_of_json line
    refuse_if
        (not (entry.schema_version == audit_schema_version)
          || not (entry.sequence == p.expected_sequence))
        (format audit_sequence_gap)
    refuse_if (not (bytes_eq entry.previous_mac (encode_hex p.previous_mac)))
        (format audit_previous_mac)
    canonical ← x.unsigned_json (unsigned_of entry)
    actual_mac ← decode_mac entry.mac
    verify_mac key canonical actual_mac
    refuse_if (names anchor entry.sequence && differs anchor entry.mac) (format audit_anchor_mac)
    next ← ok_or (checked_suc p.expected_sequence) (format audit_sequence_overflow)
    ok (record {
      expected_sequence = next;
      previous_mac = actual_mac;
      anchor_matched = p.anchor_matched || names anchor entry.sequence;
    })

  unfoldable pub verify_lines :
      Bytes → Option AuditAnchor → List Bytes → Progress → FcpResult Progress
  verify_lines key anchor [] p = ok p
  verify_lines key anchor (l ∷ ls) p = do
    q ← verify_line key anchor p l
    verify_lines key anchor ls q

  unfoldable pub verify_segments :
      Bytes → Option AuditAnchor → List Segment → Progress → FcpResult Progress
  verify_segments key anchor [] p = ok p
  verify_segments key anchor (s ∷ ss) p = do
    refuse_if (not (is_whole s.bytes)) (format audit_truncated_line)
    q ← verify_lines key anchor (lines_of s.bytes) p
    verify_segments key anchor ss q

  -- The end of `verify_chain`: a chain that ends before the anchor, or never meets it, is refused.
  unfoldable pub tail_of : Option AuditAnchor → Progress → FcpResult VerifiedTail
  tail_of anchor p = do
    refuse_if (cut_off anchor (p.expected_sequence - 1) p.anchor_matched) (format audit_truncation)
    ok (record { sequence = p.expected_sequence - 1; mac = p.previous_mac })

  unfoldable pub verify_chain :
      Bytes → Option AuditAnchor → Option AuditCheckpoint → List Segment → FcpResult VerifiedTail
  verify_chain key anchor checkpoint segments = do
    previous_mac ← checkpoint_mac checkpoint
    p ← verify_segments key anchor segments (record {
      expected_sequence = first_sequence checkpoint;
      previous_mac = previous_mac;
      anchor_matched = within anchor (checkpoint_sequence checkpoint);
    })
    tail_of anchor p
