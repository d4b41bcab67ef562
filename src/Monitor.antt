-- ===== src/Monitor.antt =====
-- native-host/src/monitor/mod.rs, with its events of protocol/messages.rs: the bounded queue of host
-- events and the acceptance of events from the extension. A set of ids is the list of its members in
-- the order of insertion. The observation of processes is not modelled.
pub mod Bounds
pub mod Runs
pub mod Recent
use fursoy_vault.Prelude.{
  Bytes, Uuid, is_nil, ℕ, zero, suc, ◌+◌, Bool, true, false, Option, none, some, List, [], ◌∷◌,
  ◌++◌, ◌==◌, ltb, ◌||◌, eqb, not, length, if◌then◌else◌, codes,
}
use fursoy_vault.Error.{
  FcpError, FcpResult, ok, err, ◌>>◌, refuse_if, protocol, monitor_id_nil, monitor_severity,
  monitor_count, monitor_source, poll_out_of_range,
}
use fursoy_vault.Audit.Chain.{AuditCrates}
use fursoy_vault.Audit.Logger.{AuditLogger, Appending}
use fursoy_vault.Audit.Open.{record_group, record_system}

abbrev pub max_pending_events : ℕ
max_pending_events = 128

abbrev pub max_poll_events : ℕ
max_poll_events = 64

abbrev pub max_accepted_event_ids : ℕ
max_accepted_event_ids = 512

pub data MonitorSeverity : Type 0 where
  info medium high : MonitorSeverity

unfoldable pub MonitorSeverity-discrete : Discrete MonitorSeverity
MonitorSeverity-discrete = hlevel

pub data MonitorSignal : Type 0 where
  remote_debugging_port remote_debugging_pipe process_inspection_wmi_connect_access_denied
        process_inspection_wmi_connect_failed process_inspection_wmi_poll_access_denied
        process_inspection_wmi_poll_failed process_inspection_command_line_access_denied
        process_inspection_command_line_unavailable host_disconnect host_disconnect_active_lease
        reconnect_success reconciliation_failed audit_integrity_recovered
        lease_outside_cookie_created selector_changed monitor_queue_overflow :
      MonitorSignal

pub data MonitorSource : Type 0 where
  extension native_host : MonitorSource

abbrev pub severity : MonitorSignal → MonitorSeverity
severity remote_debugging_port = high
severity remote_debugging_pipe = high
severity host_disconnect_active_lease = high
severity reconciliation_failed = high
severity audit_integrity_recovered = high
severity lease_outside_cookie_created = medium
severity monitor_queue_overflow = medium
severity host_disconnect = info
severity reconnect_success = info
severity selector_changed = info
severity process_inspection_wmi_connect_access_denied = info
severity process_inspection_wmi_connect_failed = info
severity process_inspection_wmi_poll_access_denied = info
severity process_inspection_wmi_poll_failed = info
severity process_inspection_command_line_access_denied = info
severity process_inspection_command_line_unavailable = info

abbrev pub audit_code : MonitorSignal → Bytes
audit_code remote_debugging_port = codes "remote_debugging_port"
audit_code remote_debugging_pipe = codes "remote_debugging_pipe"
audit_code process_inspection_wmi_connect_access_denied =
    codes "process_inspection_wmi_connect_wbem_access_denied_0x80041003"
audit_code process_inspection_wmi_connect_failed = codes "process_inspection_wmi_connect_failed"
audit_code process_inspection_wmi_poll_access_denied =
    codes "process_inspection_wmi_poll_wbem_access_denied_0x80041003"
audit_code process_inspection_wmi_poll_failed = codes "process_inspection_wmi_poll_failed"
audit_code process_inspection_command_line_access_denied =
    codes "process_inspection_command_line_wbem_access_denied_0x80041003"
audit_code process_inspection_command_line_unavailable =
    codes "process_inspection_command_line_unavailable"
audit_code host_disconnect = codes "host_disconnect"
audit_code host_disconnect_active_lease = codes "host_disconnect_active_lease"
audit_code reconnect_success = codes "reconnect_success"
audit_code reconciliation_failed = codes "reconciliation_failed"
audit_code audit_integrity_recovered = codes "audit_integrity_recovered"
audit_code lease_outside_cookie_created = codes "lease_outside_cookie_created"
audit_code selector_changed = codes "selector_changed"
audit_code monitor_queue_overflow = codes "monitor_queue_overflow"

pub record MonitorEvent : Type 0 where
  pub event_id : Uuid
  pub observed_at_unix_ms : ℕ  -- u64
  pub source : MonitorSource
  pub signal : MonitorSignal
  pub severity : MonitorSeverity
  pub account_group_id : Option Uuid
  pub occurrence_count : ℕ  -- u32

pub record MonitorEngine : Type 0 where
  pub pending : List MonitorEvent
  pub accepted_event_ids : List Uuid
  pub accepted_event_order : List Uuid

unfoldable pub event_validate : MonitorEvent → FcpResult (Unit {0})
event_validate e = do
  refuse_if (is_nil e.event_id) (protocol monitor_id_nil)
  refuse_if (not (eqb MonitorSeverity-discrete e.severity (severity e.signal)))
      (protocol monitor_severity)
  refuse_if (e.occurrence_count == 0 || ltb 1000 e.occurrence_count) (protocol monitor_count)

abbrev is_extension : MonitorSource → Bool
is_extension extension = true
is_extension native_host = false

abbrev is_overflow : MonitorSignal → Bool
is_overflow monitor_queue_overflow = true
is_overflow _ = false

abbrev pub monitor_new : MonitorEngine
monitor_new = record { pending = []; accepted_event_ids = []; accepted_event_order = [] }

abbrev pub has : Uuid → List Uuid → Bool
has id [] = false
has id (i ∷ ids) = i == id || has id ids

abbrev pub without : Uuid → List Uuid → List Uuid
without id [] = []
without id (i ∷ ids) = if i == id then without id ids else i ∷ without id ids

abbrev pub inserted : Uuid → List Uuid → List Uuid
inserted id ids = if has id ids then ids else ids ++ (id ∷ [])

abbrev pub without_front {ℓ} : {A : Type ℓ} → List A → List A
without_front [] = []
without_front (a ∷ rest) = rest

-- `pop_front`, and the removal of what it returned.
abbrev pub forgotten : List Uuid → MonitorEngine → MonitorEngine
forgotten [] m = m
forgotten (oldest ∷ rest) m = record m {
  accepted_event_ids = without oldest m.accepted_event_ids;
  accepted_event_order = rest;
}

abbrev pub forget_oldest : MonitorEngine → MonitorEngine
forget_oldest m = forgotten m.accepted_event_order m

abbrev pub remembered : Uuid → MonitorEngine → MonitorEngine
remembered id m = record m {
  accepted_event_ids = inserted id m.accepted_event_ids;
  accepted_event_order = m.accepted_event_order ++ (id ∷ []);
}

unfoldable pub remember_event : Uuid → MonitorEngine → MonitorEngine
remember_event id m =
    if length m.accepted_event_ids == max_accepted_event_ids
    then remembered id (forget_oldest m)
    else remembered id m

-- The event that stands for those that were dropped; `fresh` is a new id.
abbrev overflow_event : Uuid → ℕ → MonitorEvent
overflow_event fresh now = record {
  event_id = fresh;
  observed_at_unix_ms = now;
  source = native_host;
  signal = monitor_queue_overflow;
  severity = severity monitor_queue_overflow;
  account_group_id = none;
  occurrence_count = 1;
}

unfoldable pub enqueue_bounded :
    Uuid → FcpResult ℕ → MonitorEvent → List MonitorEvent → FcpResult (Unit {0}) × List MonitorEvent
enqueue_bounded fresh clock e queue =
    if not (length queue == max_pending_events)
    then (ok tt, queue ++ (e ∷ []))
    else if is_overflow e.signal
    then (ok tt, without_front queue ++ (e ∷ []))
    else elim clock [
      | err f ↦ (err f, without_front queue)
      | ok now ↦ (
        ok tt,
        without_front (without_front queue ++ (overflow_event fresh now ∷ [])) ++ (e ∷ []),
      )
    ]

abbrev queued :
    MonitorEngine → FcpResult (Unit {0}) × List MonitorEvent → FcpResult (Unit {0}) × MonitorEngine
queued m (r, queue) = (r, record m { pending = queue })

unfoldable pub enqueue_host_event :
    Uuid → FcpResult ℕ → MonitorEvent → MonitorEngine → FcpResult (Unit {0}) × MonitorEngine
enqueue_host_event fresh clock e m =
    elim (event_validate e >> refuse_if (is_extension e.source) (protocol monitor_source)) [
      | err f ↦ (err f, m)
      | ok _ ↦ queued m (enqueue_bounded fresh clock e m.pending)
    ]

abbrev outcome_of : MonitorSeverity → Bytes
outcome_of info = codes "info"
outcome_of medium = codes "warning"
outcome_of high = codes "high"

-- Results with the engine and the log, which both go on.
abbrev pub Watched : Type 0 → Type 0
Watched A = FcpResult A × MonitorEngine × AuditLogger

module _ (x : AuditCrates) where
  unfoldable pub audit_event :
      Appending → MonitorEvent → AuditLogger → FcpResult (Unit {0}) × AuditLogger
  audit_event a e l = elim e.account_group_id [
    | some group ↦
        record_group x a group (codes "monitor") (outcome_of e.severity) (some e.event_id)
          (some (audit_code e.signal)) l
    | none ↦
        record_system x a (codes "monitor") (outcome_of e.severity) (some (audit_code e.signal)) l
  ]

  abbrev accepted :
      MonitorEvent
      → MonitorEngine
      → FcpResult (Unit {0}) × AuditLogger
      → Watched (List MonitorEvent)
  accepted e m (err f, l) = (err f, m, l)
  accepted e m (ok _, l) = (ok (e ∷ []), remember_event e.event_id m, l)

  -- The events of the alerts that are returned.
  unfoldable pub accept_extension_event :
      Appending → MonitorEvent → MonitorEngine → AuditLogger → Watched (List MonitorEvent)
  accept_extension_event a e m l =
      elim (event_validate e >> refuse_if (not (is_extension e.source)) (protocol monitor_source)) [
        | err f ↦ (err f, m, l)
        | ok _ ↦
            if has e.event_id m.accepted_event_ids
            then (ok (e ∷ []), m, l)
            else accepted e m (audit_event a e l)
      ]

  abbrev alerted :
      MonitorEvent
      → FcpResult (List MonitorEvent) × List MonitorEvent × AuditLogger
      → FcpResult (List MonitorEvent) × List MonitorEvent × AuditLogger
  alerted e (err f, queue, l) = (err f, queue, l)
  alerted e (ok es, queue, l) = (ok (e ∷ es), queue, l)

  -- The loop of `poll`; `answers n` is for the event with n more to come.
  unfoldable pub poll_events :
      (ℕ → Appending)
      → ℕ
      → List MonitorEvent
      → AuditLogger
      → FcpResult (List MonitorEvent) × List MonitorEvent × AuditLogger
  poll_events answers zero queue l = (ok [], queue, l)
  poll_events answers (suc n) [] l = (ok [], [], l)
  poll_events answers (suc n) (e ∷ queue) l = elim (audit_event (answers n) e l).0 [
    | err f ↦ (err f, queue, (audit_event (answers n) e l).1)
    | ok _ ↦ alerted e (poll_events answers n queue (audit_event (answers n) e l).1)
  ]

  abbrev polled :
      MonitorEngine
      → FcpResult (List MonitorEvent) × List MonitorEvent × AuditLogger
      → Watched (List MonitorEvent)
  polled m (r, queue, l) = (r, record m { pending = queue }, l)

  unfoldable pub poll :
      (ℕ → Appending) → ℕ → MonitorEngine → AuditLogger → Watched (List MonitorEvent)
  poll answers max_events m l =
      if max_events == 0 || ltb max_poll_events max_events
      then (err (protocol poll_out_of_range), m, l)
      else polled m (poll_events answers max_events m.pending l)
