-- ===== src/Audit/Retention.antt =====
-- native-host/src/audit.rs: `compact_expired_segments`. The last entry of the expired files becomes the
-- checkpoint, and then the files are removed in their order.
use fursoy_vault.Prelude.{ℕ, ◌-◌, ◌/◌, Option, none, some, List, [], ◌∷◌, ltb, if◌then◌else◌, ◌==◌}
use fursoy_vault.Error.{FcpError, FcpResult, ok, err, ◌>>=◌, ok_or, format, audit_segment_empty}
use fursoy_vault.AtomicFile.{FileState, next_faults, later_faults}
use fursoy_vault.Audit.Lines.{lines_of}
use fursoy_vault.Audit.Chain.{audit_schema_version, AuditCheckpoint, AuditCrates, Segment}
use fursoy_vault.Audit.Logger.{
  audit_retention_days, day_ms, AuditHost, ◌>>-◌, persist_protected_file,
}

-- The clock and the answers of the operating system: to the read of the last expired file, and to the
-- removal of the file of a day.
pub record Compacting : Type 0 where
  pub now : FcpResult ℕ
  pub read_last : Option FcpError
  pub remove : ℕ → Option FcpError

abbrev pub expired : ℕ → List Segment → List Segment
expired cutoff [] = []
expired cutoff (s ∷ ss) = if ltb s.day cutoff then s ∷ expired cutoff ss else expired cutoff ss

abbrev pub last_of {ℓ} : {A : Type ℓ} → List A → Option A
last_of [] = none
last_of (a ∷ []) = some a
last_of (a ∷ b ∷ rest) = last_of (b ∷ rest)

abbrev pub without_day : ℕ → List Segment → List Segment
without_day day [] = []
without_day day (s ∷ ss) = if s.day == day then ss else s ∷ without_day day ss

-- `for path in expired { fs::remove_file(path)?; }`
unfoldable pub remove_segments :
    (ℕ → Option FcpError) → List Segment → List Segment → FcpResult (Unit {0}) × List Segment
remove_segments remove [] segments = (ok tt, segments)
remove_segments remove (s ∷ ss) segments = elim (remove s.day) [
  | some e ↦ (err e, segments)
  | none ↦ remove_segments remove ss (without_day s.day segments)
]

module _ (x : AuditCrates) where
  -- The checkpoint that stands for the files up to `s`.
  unfoldable pub checkpoint_at : Option FcpError → Segment → FcpResult AuditCheckpoint
  checkpoint_at (some e) s = err e
  checkpoint_at none s = do
    tail ← ok_or (last_of (lines_of s.bytes)) (format audit_segment_empty)
    entry ← x.entry_of_json tail
    ok (record {
      schema_version = audit_schema_version;
      sequence = entry.sequence;
      mac = entry.mac;
      archived_through_day = s.day;
    })

  abbrev with_checkpoint :
      AuditHost → FcpResult (Unit {0}) × FileState → FcpResult (Unit {0}) × AuditHost
  with_checkpoint h (r, file) =
      (r, record h { checkpoint_file = file; faults = later_faults h.faults })

  unfoldable pub persist_checkpoint : AuditCheckpoint → AuditHost → FcpResult (Unit {0}) × AuditHost
  persist_checkpoint c h = elim (x.checkpoint_json c) [
    | err e ↦ (err e, h)
    | ok plaintext ↦
        with_checkpoint h
          (persist_protected_file x (next_faults h.faults) plaintext h.checkpoint_file)
  ]

  abbrev with_segments :
      AuditHost → FcpResult (Unit {0}) × List Segment → FcpResult (Unit {0}) × AuditHost
  with_segments h (r, segments) = (r, record h { segments = segments })

  abbrev compact_to : Compacting → List Segment → AuditHost → FcpResult (Unit {0}) × AuditHost
  compact_to w old h = elim (last_of old) [
    | none ↦ (ok tt, h)
    | some s ↦ elim (checkpoint_at w.read_last s) [
      | err e ↦ (err e, h)
      | ok c ↦ persist_checkpoint c h >>- λ _ h'.
          with_segments h' (remove_segments w.remove old h'.segments)
    ]
  ]

  unfoldable pub compact_expired_segments :
      Compacting → AuditHost → FcpResult (Unit {0}) × AuditHost
  compact_expired_segments w h = elim w.now [
    | err e ↦ (err e, h)
    | ok now ↦ compact_to w (expired (now / day_ms - audit_retention_days) h.segments) h
  ]
