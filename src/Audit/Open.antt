-- ===== src/Audit/Open.antt =====
-- native-host/src/audit.rs: the opening of a log, with the quarantine of one that does not verify.
use fursoy_vault.Prelude.{
  Bytes, bytes_eq, Uuid, Bool, true, false, ◌||◌, ◌&&◌, Option, none, some, List, [], not, ◌==◌,
  length, is_none, codes, if◌then◌else◌,
}
use fursoy_vault.Error.{FcpError, FcpResult, ok, err, ◌>>=◌}
use fursoy_vault.AtomicFile.{FileState, Faults, settled}
use fursoy_vault.Audit.Hex.{encode_hex}
use fursoy_vault.Audit.Chain.{AuditAnchor, AuditCrates, VerifiedTail, verify_chain}
use fursoy_vault.Audit.Logger.{
  AuditHost, AuditLogger, Appending, ◌>>-◌, persist_anchor, record_inner, load_anchor,
  load_checkpoint, load_or_create_key,
}
use fursoy_vault.Audit.Retention.{Compacting, compact_expired_segments}
use fursoy_vault.Audit.Outbox.{Reading, drain_outbox}

-- The answers of the operating system and the random source to one opening.
pub record Opening : Type 0 where
  pub create_dir : Option FcpError
  pub read_key : Option FcpError
  pub drawn : FcpResult Bytes
  pub read_anchor : Option FcpError
  pub read_checkpoint : Option FcpError
  pub read_segments : Option FcpError
  pub compacting : Compacting
  pub read_outbox : Reading
  pub draining : List (Reading × Appending)
  pub draining_past : Appending
  pub remove_outbox : Reading

-- `anchor.is_none_or(|value| value.sequence != … || value.mac != …)`
abbrev pub is_behind : Option AuditAnchor → VerifiedTail → Bool
is_behind none t = true
is_behind (some a) t = not (a.sequence == t.sequence) || not (bytes_eq a.mac (encode_hex t.mac))

abbrev logger_at : Bytes → VerifiedTail → AuditHost → AuditLogger
logger_at key t h = record {
  host = h;
  key = key;
  sequence = t.sequence;
  mac = t.mac;
  recovered_on_open = false;
}

abbrev hosted : AuditLogger → FcpResult (Unit {0}) × AuditHost → FcpResult (Unit {0}) × AuditLogger
hosted l (r, h) = (r, record l { host = h })

-- The name of a directory is free where its files were moved away.
abbrev no_files : List Faults → AuditHost
no_files faults = record {
  key_file = settled none;
  anchor_file = settled none;
  checkpoint_file = settled none;
  outbox_file = settled none;
  segments = [];
  faults = faults;
}

-- `fs::read_dir(&directory)?.next().is_none()`
abbrev is_bare : FileState → Bool
is_bare f = is_none f.target && is_none f.temporary

abbrev pub is_empty_host : AuditHost → Bool
is_empty_host h =
    is_bare h.key_file
    && is_bare h.anchor_file
    && is_bare h.checkpoint_file
    && is_bare h.outbox_file
    && length h.segments == 0

module _ (x : AuditCrates) where
  -- What is read and checked before the logger stands.
  unfoldable pub verified_tail :
      Opening → Bytes → AuditHost → FcpResult (Option AuditAnchor × VerifiedTail)
  verified_tail w key h = do
    anchor ← load_anchor x w.read_anchor h
    checkpoint ← load_checkpoint x w.read_checkpoint h
    elim w.read_segments [
      | some e ↦ err e
      | none ↦ do t ← verify_chain x key anchor checkpoint h.segments; ok (anchor, t)
    ]

  anchor_stage :
      Option AuditAnchor → VerifiedTail → AuditLogger → FcpResult (Unit {0}) × AuditLogger
  anchor_stage anchor t l =
      if is_behind anchor t then hosted l (persist_anchor x t.sequence t.mac l.host) else (ok tt, l)

  start_logger :
      Opening → Option AuditAnchor × VerifiedTail → AuditLogger → FcpResult (Unit {0}) × AuditLogger
  unfolding anchor_stage
  start_logger w (anchor, t) l = anchor_stage anchor t l >>- λ _ l.
      hosted l (compact_expired_segments x w.compacting l.host) >>- λ _ l.
      drain_outbox x w.read_outbox w.draining w.draining_past w.remove_outbox l

  abbrev logger_of : FcpResult (Unit {0}) × AuditLogger → FcpResult AuditLogger × AuditHost
  logger_of (ok _, l) = (ok l, l.host)
  logger_of (err e, l) = (err e, l.host)

  -- The result, and the directory where there is no logger.
  unfoldable pub open_strict : Opening → AuditHost → FcpResult AuditLogger × AuditHost
  unfolding start_logger
  open_strict w h = elim w.create_dir [
    | some e ↦ (err e, h)
    | none ↦ load_or_create_key x w.read_key w.drawn h >>- λ key h. elim (verified_tail w key h) [
      | err e ↦ (err e, h)
      | ok found ↦ logger_of (start_logger w found (logger_at key found.1 h))
    ]
  ]

  -- `record` and `record_system`
  unfoldable pub record_group :
      Appending
      → Uuid
      → Bytes
      → Bytes
      → Option Uuid
      → Option Bytes
      → AuditLogger
      → FcpResult (Unit {0}) × AuditLogger
  record_group a group event outcome operation_id detail_code = record_inner x a (record {
    account_group_id = some group;
    event = event;
    outcome = outcome;
    operation_id = operation_id;
    detail_code = detail_code;
    audit_event_id = none;
  })

  unfoldable pub record_system :
      Appending → Bytes → Bytes → Option Bytes → AuditLogger → FcpResult (Unit {0}) × AuditLogger
  record_system a event outcome detail_code = record_inner x a (record {
    account_group_id = none;
    event = event;
    outcome = outcome;
    operation_id = none;
    detail_code = detail_code;
    audit_event_id = none;
  })

  abbrev quarantined :
      Appending → FcpResult AuditLogger × AuditHost → FcpResult AuditLogger × AuditHost
  quarantined a (err e, h) = (err e, h)
  quarantined a (ok l, h) = logger_of (
      record_system a (codes "audit_recovery") (codes "high_alert")
        (some (codes "integrity_failure_quarantined")) (record l { recovered_on_open = true }))

  abbrev or_quarantine :
      Option FcpError
      → Opening
      → Appending
      → FcpResult AuditLogger × AuditHost
      → FcpResult AuditLogger × AuditHost
  or_quarantine rename w' a (ok l, h) = (ok l, h)
  or_quarantine rename w' a (err original, h) =
      if is_empty_host h then (err original, h) else elim rename [
        | some e ↦ (err e, h)
        | none ↦ quarantined a (open_strict w' (no_files h.faults))
      ]

  -- `rename` is the answer to the move of the directory.
  unfoldable pub open_log :
      Opening
      → Option FcpError
      → Opening
      → Appending
      → AuditHost
      → FcpResult AuditLogger × AuditHost
  open_log w rename w' a h = or_quarantine rename w' a (open_strict w h)
