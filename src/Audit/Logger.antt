-- ===== src/Audit/Logger.antt =====
-- native-host/src/audit.rs: the logger. `AuditHost` is the directory of the log, a file for each of its
-- names, with the answers to the coming verified writes. A method returns its result and the state,
-- also on an error.
pub mod Extends
pub mod Checks
pub mod Writes
pub mod Reopens
pub mod FailedSync
use fursoy_vault.Prelude.{
  Bytes, bytes_eq, Uuid, checked_suc, is_none, ℕ, ◌-◌, ◌/◌, Bool, true, false, ◌&&◌, ◌||◌, Option,
  none, some, List, [], ◌∷◌, ◌++◌, not, ◌==◌, ltb, length, take, if◌then◌else◌,
}
use fursoy_vault.Error.{
  FcpError, FcpResult, ok, err, ◌>>=◌, ◌>>◌, refuse_if, ok_or, io, format, crypto, audit_key_length,
  audit_key_missing, audit_anchor_missing, audit_anchor_malformed, audit_checkpoint_malformed,
  audit_sequence_overflow, audit_segment_empty, protected_read_back,
}
use fursoy_vault.AtomicFile.{FileState, Faults, next_faults, later_faults, write_verified}
use fursoy_vault.Audit.Hex.{encode_hex, decode_mac}
use fursoy_vault.Audit.Lines.{newline, lines_of}
use fursoy_vault.Audit.Chain.{
  audit_schema_version, UnsignedAuditEntry, AuditEntry, AuditAnchor, AuditCheckpoint, AuditCrates,
  Segment, VerifiedTail, calculate_mac, verify_chain,
}

abbrev pub audit_key_bytes : ℕ
audit_key_bytes = 32

abbrev pub audit_retention_days : ℕ
audit_retention_days = 90

abbrev pub day_ms : ℕ
day_ms = 86400000

pub record AuditHost : Type 0 where
  pub key_file : FileState
  pub anchor_file : FileState
  pub checkpoint_file : FileState
  pub outbox_file : FileState
  pub segments : List Segment
  pub faults : List Faults

pub record AuditLogger : Type 0 where
  pub host : AuditHost
  pub key : Bytes
  pub sequence : ℕ  -- u64
  pub mac : Bytes
  pub recovered_on_open : Bool

-- What a caller asks to be recorded.
pub record AuditEvent : Type 0 where
  pub account_group_id : Option Uuid
  pub event : Bytes
  pub outcome : Bytes
  pub operation_id : Option Uuid
  pub detail_code : Option Bytes
  pub audit_event_id : Option Uuid

-- The clock and the answers of the operating system to one append.
pub record Appending : Type 0 where
  pub now : FcpResult ℕ
  pub open_file : Option FcpError
  pub write_all : Option FcpError
  pub written : ℕ  -- how many bytes a failed write leaves
  pub sync_data : Option FcpError

-- What one append writes, and the state after it.
pub record PreparedLine : Type 0 where
  pub sequence : ℕ
  pub day : ℕ
  pub mac : Bytes
  pub line : Bytes

-- The `?` operator, for a step that returns the state too.
infixl 5 ◌>>-◌
abbrev pub ◌>>-◌ {ℓ κ} :
    {A S : Type ℓ} {B : Type κ} → FcpResult A × S → (A → S → FcpResult B × S) → FcpResult B × S
(ok a, s) >>- f = f a s
(err e, s) >>- f = (err e, s)

-- The append to the file of a day, which is created where it is not there. The list stays in the order
-- of the days.
unfoldable pub append_to : ℕ → Bytes → List Segment → List Segment
append_to day bytes [] = record { day = day; bytes = bytes } ∷ []
append_to day bytes (s ∷ ss) =
    if day == s.day
    then record s { bytes = s.bytes ++ bytes } ∷ ss
    else if ltb day s.day
    then record { day = day; bytes = bytes } ∷ (s ∷ ss)
    else s ∷ append_to day bytes ss

abbrev pub appended : PreparedLine → Bytes → AuditLogger → AuditLogger
appended p bytes l = record l {
  host = record l.host { segments = append_to p.day bytes l.host.segments };
}

unfoldable pub append_line :
    Appending → PreparedLine → AuditLogger → FcpResult (Unit {0}) × AuditLogger
append_line a p l = elim a.open_file [
  | some e ↦ (err e, l)
  | none ↦ elim a.write_all [
    | some e ↦ (err e, appended p (take a.written p.line) l)
    | none ↦ elim a.sync_data [
      | some e ↦ (err e, appended p p.line l)
      | none ↦ (ok tt, appended p p.line l)
    ]
  ]
]

-- `fs::read` of a file that was found.
abbrev read_file : Option FcpError → Bytes → FcpResult Bytes
read_file (some e) bytes = err e
read_file none bytes = ok bytes

module _ (x : AuditCrates) where
  abbrev pub verify_protected : Bytes → Bytes → FcpResult (Unit {0})
  verify_protected plaintext candidate = do
    recovered ← x.unprotect candidate
    refuse_if (not (bytes_eq recovered plaintext)) (crypto protected_read_back)

  unfoldable pub persist_protected_file :
      Faults → Bytes → FileState → FcpResult (Unit {0}) × FileState
  persist_protected_file f plaintext file = elim (x.protect plaintext) [
    | err e ↦ (err e, file)
    | ok protected ↦ write_verified f protected (verify_protected plaintext) file
  ]

  abbrev with_anchor :
      AuditHost → FcpResult (Unit {0}) × FileState → FcpResult (Unit {0}) × AuditHost
  with_anchor h (r, file) = (r, record h { anchor_file = file; faults = later_faults h.faults })

  unfoldable pub persist_anchor : ℕ → Bytes → AuditHost → FcpResult (Unit {0}) × AuditHost
  persist_anchor sequence mac h =
      elim (x.anchor_json (record {
        schema_version = audit_schema_version;
        sequence = sequence;
        mac = encode_hex mac;
      })) [
        | err e ↦ (err e, h)
        | ok plaintext ↦
            with_anchor h (persist_protected_file (next_faults h.faults) plaintext h.anchor_file)
      ]

  abbrev pub unsigned_entry : ℕ → ℕ → AuditEvent → AuditLogger → UnsignedAuditEntry
  unsigned_entry sequence now e l = record {
    schema_version = audit_schema_version;
    sequence = sequence;
    previous_mac = encode_hex l.mac;
    timestamp_unix_ms = now;
    account_group_id = e.account_group_id;
    event = e.event;
    outcome = e.outcome;
    operation_id = e.operation_id;
    detail_code = e.detail_code;
    audit_event_id = e.audit_event_id;
  }

  abbrev pub signed_entry : UnsignedAuditEntry → Bytes → AuditEntry
  signed_entry u mac = record {
    schema_version = u.schema_version;
    sequence = u.sequence;
    previous_mac = u.previous_mac;
    timestamp_unix_ms = u.timestamp_unix_ms;
    account_group_id = u.account_group_id;
    event = u.event;
    outcome = u.outcome;
    operation_id = u.operation_id;
    detail_code = u.detail_code;
    audit_event_id = u.audit_event_id;
    mac = encode_hex mac;
  }

  -- `record_inner` up to the opening of the file.
  unfoldable pub prepare_line : FcpResult ℕ → AuditEvent → AuditLogger → FcpResult PreparedLine
  prepare_line clock e l = do
    sequence ← ok_or (checked_suc l.sequence) (format audit_sequence_overflow)
    now ← clock
    canonical ← x.unsigned_json (unsigned_entry sequence now e l)
    mac ← calculate_mac x l.key canonical
    text ← x.entry_json (signed_entry (unsigned_entry sequence now e l) mac)
    ok (record {
      sequence = sequence;
      day = now / day_ms;
      mac = mac;
      line = text ++ (newline ∷ []);
    })

  abbrev hosted :
      AuditLogger → FcpResult (Unit {0}) × AuditHost → FcpResult (Unit {0}) × AuditLogger
  hosted l (r, h) = (r, record l { host = h })

  -- The end of `record_inner`: the state in memory, and the anchor.
  abbrev pub advance : PreparedLine → AuditLogger → FcpResult (Unit {0}) × AuditLogger
  advance p l =
      hosted (record l { sequence = p.sequence; mac = p.mac })
        (persist_anchor p.sequence p.mac l.host)

  unfoldable pub record_inner :
      Appending → AuditEvent → AuditLogger → FcpResult (Unit {0}) × AuditLogger
  record_inner a e l = elim (prepare_line a.now e l) [
    | err e' ↦ (err e', l)
    | ok p ↦ append_line a p l >>- λ _ l'. advance p l'
  ]

  unfoldable pub load_anchor : Option FcpError → AuditHost → FcpResult (Option AuditAnchor)
  load_anchor fault h = elim h.anchor_file.target [
    | none ↦ do refuse_if (not (length h.segments == 0)) (format audit_anchor_missing); ok none
    | some bytes ↦ do
      protected ← read_file fault bytes
      plaintext ← x.unprotect protected
      anchor ← x.anchor_of_json plaintext
      refuse_if (not (anchor.schema_version == audit_schema_version))
          (format audit_anchor_malformed)
      elim (decode_mac anchor.mac) [
        | err _ ↦ err (format audit_anchor_malformed)
        | ok _ ↦ ok (some anchor)
      ]
  ]

  unfoldable pub load_checkpoint : Option FcpError → AuditHost → FcpResult (Option AuditCheckpoint)
  load_checkpoint fault h = elim h.checkpoint_file.target [
    | none ↦ ok none
    | some bytes ↦ do
      protected ← read_file fault bytes
      plaintext ← x.unprotect protected
      checkpoint ← x.checkpoint_of_json plaintext
      refuse_if (not (checkpoint.schema_version == audit_schema_version))
          (format audit_checkpoint_malformed)
      elim (decode_mac checkpoint.mac) [
        | err _ ↦ err (format audit_checkpoint_malformed)
        | ok _ ↦ ok (some checkpoint)
      ]
  ]

  abbrev with_key :
      Bytes → AuditHost → FcpResult (Unit {0}) × FileState → FcpResult Bytes × AuditHost
  with_key key h (ok _, file) =
      (ok key, record h { key_file = file; faults = later_faults h.faults })
  with_key key h (err e, file) =
      (err e, record h { key_file = file; faults = later_faults h.faults })

  -- `drawn` is what `fill_random` answers.
  unfoldable pub load_or_create_key :
      Option FcpError → FcpResult Bytes → AuditHost → FcpResult Bytes × AuditHost
  load_or_create_key fault drawn h = elim h.key_file.target [
    | some bytes ↦ (
      do
        protected ← read_file fault bytes
        plaintext ← x.unprotect protected
        refuse_if (not (length plaintext == audit_key_bytes)) (format audit_key_length)
        ok plaintext,
      h,
    )
    | none ↦
        if not (is_none h.anchor_file.target)
          || not (is_none h.checkpoint_file.target)
          || not (length h.segments == 0)
        then (err (format audit_key_missing), h)
        else elim drawn [
          | err e ↦ (err e, h)
          | ok key ↦ with_key key h (persist_protected_file (next_faults h.faults) key h.key_file)
        ]
  ]
