-- ===== src/Tests/Monitors.antt =====
-- Events of the extension and of the host.
use fursoy_vault.Prelude.{
  Bytes-discrete, ℕ_discrete, none, false, replicate, List, [], ◌∷◌, ◌≡◌, refl, arith,
}
use fursoy_vault.Error.{ok, err, io}
use fursoy_vault.Audit.Chain.{AuditCrates}
use fursoy_vault.Audit.Logger.{AuditLogger}
use fursoy_vault.Monitor.{
  MonitorEvent, MonitorEngine, Watched, MonitorSource, extension, native_host, MonitorSignal,
  host_disconnect, selector_changed, remote_debugging_port, severity, monitor_new,
  accept_extension_event,
}
use fursoy_vault.Monitor.Bounds.{IsBounded}
use fursoy_vault.Monitor.Runs.{Command, accepts, enqueues, polls, run, monitor-IsBounded}
use fursoy_vault.Monitor.Recent.{accept_extension_event_again}
use fursoy_vault.Tests.Audits.{appending}
use fursoy_vault.Tests.Fixtures.{file_with, no_file}

-- The audit log's crates, where every entry can be written.
abbrev monitor_crates : AuditCrates
monitor_crates = record {
  sha256 = λ b. replicate 32 7;
  unsigned_json = λ e. ok (3 ∷ []);
  entry_json = λ e. ok (4 ∷ []);
  entry_of_json = λ b. err io;
  anchor_json = λ a. ok (5 ∷ []);
  anchor_of_json = λ b. err io;
  checkpoint_json = λ c. ok (6 ∷ []);
  checkpoint_of_json = λ b. err io;
  outbox_json = λ es. ok (7 ∷ []);
  outbox_of_json = λ b. err io;
  protect = λ b. ok b;
  unprotect = λ b. ok b;
}

abbrev logger : AuditLogger
logger = record {
  host = record {
    key_file = file_with (replicate 32 5);
    anchor_file = no_file;
    checkpoint_file = no_file;
    outbox_file = no_file;
    segments = [];
    faults = [];
  };
  key = replicate 32 5;
  sequence = 0;
  mac = replicate 32 0;
  recovered_on_open = false;
}

abbrev observed : MonitorSource → MonitorSignal → MonitorEvent
observed source signal = record {
  event_id = 9;
  observed_at_unix_ms = 30;
  source = source;
  signal = signal;
  severity = severity signal;
  account_group_id = none;
  occurrence_count = 1;
}

abbrev changed : MonitorEvent
changed = observed extension selector_changed

abbrev commands : List Command
commands =
    accepts (appending 30) changed
    ∷ enqueues 10 (err io) (observed native_host remote_debugging_port)
    ∷ polls appending 2
    ∷ []

monitor-IsBounded_example : IsBounded (run monitor_crates commands (monitor_new, logger)).0
monitor-IsBounded_example = monitor-IsBounded monitor_crates commands logger

abbrev first : Watched (List MonitorEvent)
first = accept_extension_event monitor_crates (appending 30) changed monitor_new logger

abbrev one_accepted : MonitorEngine
one_accepted = record { pending = []; accepted_event_ids = 9 ∷ []; accepted_event_order = 9 ∷ [] }

accepts_once : first ≡ (ok (changed ∷ []), one_accepted, first.2)
unfolding accept_extension_event fursoy_vault.Monitor.event_validate
    fursoy_vault.Monitor.MonitorSeverity-discrete fursoy_vault.Monitor.audit_event
    fursoy_vault.Audit.Open.record_system fursoy_vault.Audit.Logger.record_inner
    fursoy_vault.Audit.Logger.prepare_line fursoy_vault.Audit.Chain.calculate_mac
    fursoy_vault.Audit.Logger.append_line fursoy_vault.Audit.Logger.persist_anchor
    fursoy_vault.Audit.Logger.persist_protected_file fursoy_vault.AtomicFile.write_verified
    fursoy_vault.AtomicFile.write_verified_durable Bytes-discrete ℕ_discrete
    fursoy_vault.Monitor.remember_event
accepts_once = refl

-- What runs between the two times that the event is sent.
abbrev between : List Command
between = polls appending 2 ∷ accepts (appending 40) (record changed { event_id = 11 }) ∷ []

accept_extension_event_again_example :
    let (m, l) = run monitor_crates between (one_accepted, first.2) in
    accept_extension_event monitor_crates (appending 50) changed m l ≡ (ok (changed ∷ []), m, l)
unfolding run
accept_extension_event_again_example =
    accept_extension_event_again monitor_crates (appending 30) (appending 50) changed logger first.2
      one_accepted [] between (changed ∷ []) refl accepts_once (omega arith)
