-- ===== src/Monitor/Runs.antt =====
-- Runs of the monitor's commands.
use fursoy_vault.Prelude.{
  Uuid, ℕ, zero, suc, ◌≤◌, false, List, [], ◌∷◌, ◌≡◌, inl, inr, refl, arith, ◌==◌, ◌||◌, not,
  length, ltb, Bool-cases,
}
use fursoy_vault.Error.{
  FcpResult, FcpResult-cases, ok, err, ◌>>◌, refuse_if, protocol, monitor_source,
}
use fursoy_vault.Audit.Chain.{AuditCrates}
use fursoy_vault.Audit.Logger.{AuditLogger, Appending}
use fursoy_vault.Monitor.{
  MonitorEvent, MonitorEngine, Watched, max_pending_events, max_poll_events, monitor_new, has,
  enqueue_host_event, event_validate, is_extension, accepted, audit_event, accept_extension_event,
  alerted, poll_events, poll,
}
use fursoy_vault.Monitor.Bounds.{IsBounded, remember_event-IsBounded, length-enqueue_bounded}

with_pending :
    (m : MonitorEngine) (queue : List MonitorEvent)
    → length queue ≤ max_pending_events
    → IsBounded m
    → IsBounded (record m { pending = queue })
with_pending m queue h b = record { queue = h; memory = b.memory; same = b.same; once = b.once }

enqueue_host_event-IsBounded :
    (fresh : Uuid) (clock : FcpResult ℕ) (e : MonitorEvent) (m : MonitorEngine)
    → IsBounded m
    → IsBounded (enqueue_host_event fresh clock e m).1
unfolding enqueue_host_event
enqueue_host_event-IsBounded fresh clock e m b =
    elim (FcpResult-cases
      (event_validate e >> refuse_if (is_extension e.source) (protocol monitor_source))) [
        | inr (f, q) ↦ rw (q, enqueue_host_event) b
        | inl (_, q) ↦
            rw (q, enqueue_host_event)
              (with_pending m _ (length-enqueue_bounded fresh clock e m.pending b.queue) b)
      ]

-- The commands of the engine, with what the world answers to each.
pub data Command : Type 0 where
  accepts : Appending → MonitorEvent → Command
  enqueues : Uuid → FcpResult ℕ → MonitorEvent → Command
  polls : (ℕ → Appending) → ℕ → Command

module _ (x : AuditCrates) where
  accepted-IsBounded :
      (e : MonitorEvent) (m : MonitorEngine) (r : FcpResult (Unit {0}) × AuditLogger)
      → has e.event_id m.accepted_event_ids ≡ false
      → IsBounded m
      → IsBounded (accepted x e m r).1
  accepted-IsBounded e m (err f, l) h b = b
  accepted-IsBounded e m (ok _, l) h b = remember_event-IsBounded e.event_id m h b

  accept_extension_event-IsBounded :
      (a : Appending) (e : MonitorEvent) (m : MonitorEngine) (l : AuditLogger)
      → IsBounded m
      → IsBounded (accept_extension_event x a e m l).1
  unfolding accept_extension_event
  accept_extension_event-IsBounded a e m l b =
      elim (FcpResult-cases
        (event_validate e >> refuse_if (not (is_extension e.source)) (protocol monitor_source))) [
          | inr (f, q) ↦ rw (q, accept_extension_event) b
          | inl (_, q) ↦ elim (Bool-cases (has e.event_id m.accepted_event_ids)) [
            | inl t ↦ rw (q, accept_extension_event, t) b
            | inr t ↦
                rw (q, accept_extension_event, t) (accepted-IsBounded e m (audit_event x a e l) t b)
          ]
        ]

  alerted_queue :
      (e : MonitorEvent) (r : FcpResult (List MonitorEvent) × List MonitorEvent × AuditLogger)
      → (alerted x e r).1 ≡ r.1
  alerted_queue e (err f, queue, l) = refl
  alerted_queue e (ok es, queue, l) = refl

  length-poll_events :
      (answers : ℕ → Appending) (n : ℕ) (queue : List MonitorEvent) (l : AuditLogger)
      → length (poll_events x answers n queue l).1 ≤ length queue
  unfolding poll_events
  length-poll_events answers zero queue l = omega arith
  length-poll_events answers (suc n) [] l = omega arith
  length-poll_events answers (suc n) (e ∷ queue) l =
      elim (FcpResult-cases (audit_event x (answers n) e l).0) [
        | inr (f, q) ↦ rw (q, poll_events) (omega arith)
        | inl (_, q) ↦
            let rest = poll_events x answers n queue (audit_event x (answers n) e l).1 in
            let shorter = length-poll_events answers n queue (audit_event x (answers n) e l).1 in
            rw (q, poll_events, alerted_queue e rest) (omega (arith, shorter))
      ]

  poll-IsBounded :
      (answers : ℕ → Appending) (n : ℕ) (m : MonitorEngine) (l : AuditLogger)
      → IsBounded m
      → IsBounded (poll x answers n m l).1
  unfolding poll
  poll-IsBounded answers n m l b = elim (Bool-cases (n == 0 || ltb max_poll_events n)) [
    | inl t ↦ rw t b
    | inr t ↦
        rw t (with_pending m _ (omega (arith, length-poll_events answers n m.pending l, b.queue)) b)
  ]

  abbrev without_result : {A : Type 0} → Watched A → MonitorEngine × AuditLogger
  without_result (r, m, l) = (m, l)

  abbrev pub after : Command → MonitorEngine × AuditLogger → MonitorEngine × AuditLogger
  after (accepts a e) (m, l) = without_result (accept_extension_event x a e m l)
  after (enqueues fresh clock e) (m, l) = ((enqueue_host_event fresh clock e m).1, l)
  after (polls answers n) (m, l) = without_result (poll x answers n m l)

  unfoldable pub run : List Command → MonitorEngine × AuditLogger → MonitorEngine × AuditLogger
  run [] s = s
  run (c ∷ cs) s = run cs (after c s)

  pub after-IsBounded :
      (c : Command) (s : MonitorEngine × AuditLogger) → IsBounded s.0 → IsBounded (after c s).0
  after-IsBounded (accepts a e) (m, l) b = accept_extension_event-IsBounded a e m l b
  after-IsBounded (enqueues fresh clock e) (m, l) b = enqueue_host_event-IsBounded fresh clock e m b
  after-IsBounded (polls answers n) (m, l) b = poll-IsBounded answers n m l b

  pub run-keeps :
      (cs : List Command) (s : MonitorEngine × AuditLogger) → IsBounded s.0 → IsBounded (run cs s).0
  unfolding run
  run-keeps [] s b = b
  run-keeps (c ∷ cs) s b = run-keeps cs (after c s) (after-IsBounded c s b)

  -- Memory bounds: whatever events arrive, are polled or fail, a new engine never holds more than 128
  -- events that wait or more than 512 accepted ids, and the set and the order of the accepted ids
  -- have the same members, each once.
  pub monitor-IsBounded :
      (cs : List Command) (l : AuditLogger) → IsBounded (run cs (monitor_new, l)).0
  monitor-IsBounded cs l =
      run-keeps cs (monitor_new, l)
        (record { queue = omega arith; memory = omega arith; same = refl; once = tt })
