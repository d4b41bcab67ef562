-- ===== src/Audit/Outbox.antt =====
-- native-host/src/audit.rs: entries that are recorded once, under the id of their event, and the outbox
-- that keeps those which could not be recorded.
pub mod Once
use fursoy_vault.Prelude.{
  Bytes, Uuid, is_nil, ℕ, Bool, true, false, Option, none, some, List, [], ◌∷◌, ◌++◌, not, ◌==◌,
  any, length, eqb, ℕ_discrete, if◌then◌else◌, ◌≡◌,
}
use fursoy_vault.Error.{
  FcpError, FcpResult, ok, err, ◌>>=◌, ◌>>◌, refuse_if, io, format, protocol, audit_event_id_nil,
  outbox_read_back_mismatch,
}
use fursoy_vault.AtomicFile.{
  FileState, Faults, entry_changed, next_faults, later_faults, write_verified,
}
use fursoy_vault.Audit.Lines.{lines_of}
use fursoy_vault.Audit.Chain.{AuditOutboxEntry, AuditCrates, Segment}
use fursoy_vault.Audit.Logger.{AuditHost, AuditLogger, AuditEvent, Appending, ◌>>-◌, record_inner}

-- `entry.audit_event_id == Some(id)`
abbrev pub is_event : Uuid → Option Uuid → Bool
is_event id none = false
is_event id (some other) = other == id

-- `file` is the outbox, and `answer` what the file system says of its read.
abbrev pub Reading : Type 0
Reading = Option FcpError

abbrev pub event_of : AuditOutboxEntry → AuditEvent
event_of e = record {
  account_group_id = some e.account_group_id;
  event = e.event;
  outcome = e.outcome;
  operation_id = e.operation_id;
  detail_code = e.detail_code;
  audit_event_id = some e.audit_event_id;
}

abbrev said {ℓ} : {A : Type ℓ} → A → FcpResult (Unit {0}) × AuditLogger → FcpResult A × AuditLogger
said a (ok _, l) = (ok a, l)
said a (err e, l) = (err e, l)

-- `is_ok()`
abbrev succeeded {ℓ} : {A : Type ℓ} → FcpResult A → Bool
succeeded (ok _) = true
succeeded (err _) = false

module _ (x : AuditCrates) where
  unfoldable pub event_in_lines : Uuid → List Bytes → FcpResult Bool
  event_in_lines id [] = ok false
  event_in_lines id (l ∷ ls) = do
    entry ← x.entry_of_json l
    let rest = event_in_lines id ls
    if is_event id entry.audit_event_id then ok true else rest

  -- The search of `record_once`, which ends at the first entry with the id.
  unfoldable pub event_in_segments : Uuid → List Segment → FcpResult Bool
  event_in_segments id [] = ok false
  event_in_segments id (s ∷ ss) = do
    found ← event_in_lines id (lines_of s.bytes)
    let rest = event_in_segments id ss
    if found then ok true else rest

  -- `read` is the answer to the reads of the files, and `e` is recorded under its id.
  unfoldable pub record_once :
      Reading → Appending → AuditOutboxEntry → AuditLogger → FcpResult Bool × AuditLogger
  record_once read a e l =
      if is_nil e.audit_event_id then (err (protocol audit_event_id_nil), l) else elim read [
        | some fault ↦ (err fault, l)
        | none ↦ elim (event_in_segments e.audit_event_id l.host.segments) [
          | err fault ↦ (err fault, l)
          | ok true ↦ (ok false, l)
          | ok false ↦ said true (record_inner x a (event_of e) l)
        ]
      ]

  unfoldable pub read_outbox : Reading → FileState → FcpResult (List AuditOutboxEntry)
  read_outbox read file = elim file.target [
    | none ↦ ok []
    | some bytes ↦ elim read [ some fault ↦ err fault | none ↦ x.outbox_of_json bytes ]
  ]

  abbrev verify_outbox : List AuditOutboxEntry → Bytes → FcpResult (Unit {0})
  verify_outbox entries bytes = do
    verified ← x.outbox_of_json bytes
    refuse_if (not (length verified == length entries)) (format outbox_read_back_mismatch)

  abbrev with_outbox :
      AuditLogger → FcpResult (Unit {0}) × FileState → FcpResult (Unit {0}) × AuditLogger
  with_outbox l (r, file) = (
    r,
    record l { host = record l.host { outbox_file = file; faults = later_faults l.host.faults } },
  )

  write_outbox :
      (Bytes → FcpResult (Unit {0}))
      → List AuditOutboxEntry
      → AuditLogger
      → FcpResult (Unit {0}) × AuditLogger
  write_outbox verify entries l = elim (x.outbox_json entries) [
    | err e ↦ (err e, l)
    | ok bytes ↦
        with_outbox l (write_verified (next_faults l.host.faults) bytes verify l.host.outbox_file)
  ]

  abbrev pub with_entry : AuditOutboxEntry → List AuditOutboxEntry → List AuditOutboxEntry
  with_entry e entries =
      if any (λ (value : AuditOutboxEntry). value.audit_event_id == e.audit_event_id) entries
      then entries
      else entries ++ e ∷ []

  unfoldable pub enqueue_outbox :
      Reading → AuditOutboxEntry → AuditLogger → FcpResult (Unit {0}) × AuditLogger
  unfolding write_outbox
  enqueue_outbox read e l = elim (read_outbox read l.host.outbox_file) [
    | err fault ↦ (err fault, l)
    | ok entries ↦ write_outbox (verify_outbox (with_entry e entries)) (with_entry e entries) l
  ]

  abbrev enqueue_after : Reading → AuditOutboxEntry → FcpResult Bool × AuditLogger → AuditLogger
  enqueue_after read e (ok _, l) = l
  enqueue_after read e (err _, l) = (enqueue_outbox read e l).1

  abbrev retry_after :
      Reading → Appending → Reading → AuditOutboxEntry → FcpResult Bool × AuditLogger → AuditLogger
  retry_after read a read_box e (ok _, l) = l
  retry_after read a read_box e (err _, l) = enqueue_after read_box e (record_once read a e l)

  -- Two tries, and then the outbox, whose failure is dropped.
  unfoldable pub record_once_deferred :
      Reading
      → Appending
      → Reading
      → Appending
      → Reading
      → AuditOutboxEntry
      → AuditLogger
      → AuditLogger
  record_once_deferred read a read' a' read_box e l =
      retry_after read' a' read_box e (record_once read a e l)

  -- The loop of `drain_outbox`: what could not be recorded remains.
  unfoldable pub drain_entries :
      List (Reading × Appending)
      → Appending
      → List AuditOutboxEntry
      → AuditLogger
      → List AuditOutboxEntry × AuditLogger
  drain_entries answers usual [] l = ([], l)
  drain_entries [] usual (e ∷ es) l =
      let (r, l') = record_once none usual e l in
      let (remaining, l'') = drain_entries [] usual es l' in
      (if succeeded r then remaining else e ∷ remaining, l'')
  drain_entries ((read, a) ∷ answers) usual (e ∷ es) l =
      let (r, l') = record_once read a e l in
      let (remaining, l'') = drain_entries answers usual es l' in
      (if succeeded r then remaining else e ∷ remaining, l'')

  abbrev without_outbox : Reading → AuditLogger → FcpResult (Unit {0}) × AuditLogger
  without_outbox (some fault) l = (err fault, l)
  without_outbox none l = (
    ok tt,
    record l { host = record l.host { outbox_file = entry_changed none l.host.outbox_file } },
  )

  drained : Reading → List AuditOutboxEntry × AuditLogger → FcpResult (Unit {0}) × AuditLogger
  unfolding write_outbox
  drained remove ([], l) = without_outbox remove l
  drained remove (e ∷ es, l) = write_outbox (λ _. ok tt) (e ∷ es) l

  unfoldable pub drain_outbox :
      Reading
      → List (Reading × Appending)
      → Appending
      → Reading
      → AuditLogger
      → FcpResult (Unit {0}) × AuditLogger
  unfolding drained
  drain_outbox read answers usual remove l = elim l.host.outbox_file.target [
    | none ↦ (ok tt, l)
    | some bytes ↦ elim (read_outbox read l.host.outbox_file) [
      | err fault ↦ (err fault, l)
      | ok entries ↦ drained remove (drain_entries answers usual entries l)
    ]
  ]
