-- ===== src/Monitor/Recent.antt =====
-- How long an accepted id is remembered, and an event that is sent again in that time.
use fursoy_vault.Prelude.{
  Uuid, ℕ, suc, ◌+◌, ◌≤◌, ◌<◌, true, false, List, [], ◌∷◌, ◌++◌, ◌≡◌, inl, inr, refl, arith, sym,
  ap, ◌∙◌, ◌==◌, ◌||◌, not, length, length-append, ltb, Bool-cases,
}
use mathlib.Core.Path.{subst}
use fursoy_vault.Error.{
  FcpResult, FcpResult-cases, ok, err, ◌>>◌, refuse_if, protocol, monitor_source,
}
use fursoy_vault.Audit.Chain.{AuditCrates}
use fursoy_vault.Audit.Logger.{AuditLogger, Appending}
use fursoy_vault.Monitor.{
  MonitorEvent, MonitorEngine, max_poll_events, monitor_new, has, forgotten, forget_oldest,
  remembered, remember_event, max_accepted_event_ids, enqueue_host_event, event_validate,
  is_extension, accepted, audit_event, accept_extension_event, poll,
}
use fursoy_vault.Monitor.Bounds.{IsBounded}
use fursoy_vault.Monitor.Runs.{
  Command, accepts, enqueues, polls, after, run, after-IsBounded, run-keeps, monitor-IsBounded,
}

-- An id was accepted, and at most n others after it.
record Recent (id : Uuid) (n : ℕ) (m : MonitorEngine) : Type 0 where
  older : List Uuid
  newer : List Uuid
  place : m.accepted_event_order ≡ older ++ (id ∷ newer)
  few : length newer ≤ n

append_once :
    (xs ys : List Uuid) (id new : Uuid)
    → (xs ++ (id ∷ ys)) ++ (new ∷ []) ≡ xs ++ (id ∷ (ys ++ (new ∷ [])))
append_once [] ys id new = refl
append_once (x ∷ xs) ys id new = cc (append_once xs ys id new)

has-place : (id : Uuid) (xs ys : List Uuid) → has id (xs ++ (id ∷ ys)) ≡ true
has-place id [] ys = ground arith
has-place id (x ∷ xs) ys = rw (has-place id xs ys) (ground arith)

Recent-later : {id : Uuid} {n k : ℕ} {m : MonitorEngine} → n ≤ k → Recent id n m → Recent id k m
Recent-later h r = record {
  older = r.older;
  newer = r.newer;
  place = r.place;
  few = omega (arith, h, r.few);
}

Recent-order :
    {id : Uuid} {n : ℕ} (m m' : MonitorEngine)
    → m'.accepted_event_order ≡ m.accepted_event_order
    → Recent id n m
    → Recent id n m'
Recent-order m m' e r = record {
  older = r.older;
  newer = r.newer;
  place = e ∙ r.place;
  few = r.few;
}

remembered-Recent :
    (id new : Uuid) (n : ℕ) (m : MonitorEngine)
    → Recent id n m
    → Recent id (suc n) (remembered new m)
remembered-Recent id new n m r = record {
  older = r.older;
  newer = r.newer ++ (new ∷ []);
  place = ap (λ (z : List Uuid). z ++ (new ∷ [])) r.place ∙ append_once r.older r.newer id new;
  few = omega (arith, length-append r.newer (new ∷ []), r.few);
}

-- The oldest id is forgotten at 512 ids, and a recent one is not the oldest then.
forgotten-Recent :
    (id : Uuid) (n : ℕ) (m : MonitorEngine) (order older newer : List Uuid)
    → length order ≡ max_accepted_event_ids
    → suc n < max_accepted_event_ids
    → order ≡ older ++ (id ∷ newer)
    → length newer ≤ n
    → Recent id n (forgotten order m)
forgotten-Recent id n m [] older newer h k e f = absurd (omega (arith, h))
forgotten-Recent id n m (o ∷ order) [] newer h k e f =
    let same : order ≡ newer = cc e in
    absurd (omega (arith, h, k, f, ap (λ (z : List Uuid). length z) same))
forgotten-Recent id n m (o ∷ order) (p ∷ older) newer h k e f = record {
  older = older;
  newer = newer;
  place = cc e;
  few = f;
}

remember_event-Recent :
    (id new : Uuid) (n : ℕ) (m : MonitorEngine)
    → IsBounded m
    → suc n < max_accepted_event_ids
    → Recent id n m
    → Recent id (suc n) (remember_event new m)
unfolding remember_event
remember_event-Recent id new n m b k r =
    elim (Bool-cases (length m.accepted_event_ids == max_accepted_event_ids)) [
      | inl t ↦
          let size : length m.accepted_event_ids ≡ length m.accepted_event_order =
            ap (λ (z : List Uuid). length z) b.same in
          rw t (
            remembered-Recent id new n (forget_oldest m) (
              forgotten-Recent id n m m.accepted_event_order r.older r.newer
                (ground (arith, t, size)) k r.place r.few))
      | inr t ↦ rw t (remembered-Recent id new n m r)
    ]

remember_event-last : (id : Uuid) (m : MonitorEngine) → Recent id 0 (remember_event id m)
unfolding remember_event
remember_event-last id m =
    elim (Bool-cases (length m.accepted_event_ids == max_accepted_event_ids)) [
      | inl t ↦ rw t (last (forget_oldest m))
      | inr t ↦ rw t (last m)
    ]
  where
    last : (m : MonitorEngine) → Recent id 0 (remembered id m)
    last m = record { older = m.accepted_event_order; newer = []; place = refl; few = omega arith }

enqueue_host_event-order :
    (fresh : Uuid) (clock : FcpResult ℕ) (e : MonitorEvent) (m : MonitorEngine)
    → (enqueue_host_event fresh clock e m).1.accepted_event_order ≡ m.accepted_event_order
unfolding enqueue_host_event
enqueue_host_event-order fresh clock e m =
    elim (FcpResult-cases
      (event_validate e >> refuse_if (is_extension e.source) (protocol monitor_source))) [
        | inr (f, q) ↦ rw (q, enqueue_host_event) refl
        | inl (_, q) ↦ rw (q, enqueue_host_event) refl
      ]

module _ (x : AuditCrates) where
  poll-order :
      (answers : ℕ → Appending) (n : ℕ) (m : MonitorEngine) (l : AuditLogger)
      → (poll x answers n m l).1.accepted_event_order ≡ m.accepted_event_order
  unfolding poll
  poll-order answers n m l = elim (Bool-cases (n == 0 || ltb max_poll_events n)) [
    | inl t ↦ rw t refl
    | inr t ↦ rw t refl
  ]

  accepted-Recent :
      (id : Uuid) (n : ℕ) (e : MonitorEvent) (m : MonitorEngine)
      (r : FcpResult (Unit {0}) × AuditLogger)
      → IsBounded m
      → suc n < max_accepted_event_ids
      → Recent id n m
      → Recent id (suc n) (accepted x e m r).1
  accepted-Recent id n e m (err f, l) b k r = Recent-later (omega arith) r
  accepted-Recent id n e m (ok _, l) b k r = remember_event-Recent id e.event_id n m b k r

  accept_extension_event-Recent :
      (id : Uuid) (n : ℕ) (a : Appending) (e : MonitorEvent) (m : MonitorEngine) (l : AuditLogger)
      → IsBounded m
      → suc n < max_accepted_event_ids
      → Recent id n m
      → Recent id (suc n) (accept_extension_event x a e m l).1
  unfolding accept_extension_event
  accept_extension_event-Recent id n a e m l b k r =
      elim (FcpResult-cases
        (event_validate e >> refuse_if (not (is_extension e.source)) (protocol monitor_source))) [
          | inr (f, q) ↦ rw (q, accept_extension_event) (Recent-later (omega arith) r)
          | inl (_, q) ↦ elim (Bool-cases (has e.event_id m.accepted_event_ids)) [
            | inl t ↦ rw (q, accept_extension_event, t) (Recent-later (omega arith) r)
            | inr t ↦
                rw (q, accept_extension_event, t)
                  (accepted-Recent id n e m (audit_event x a e l) b k r)
          ]
        ]

  after-Recent :
      (id : Uuid) (n : ℕ) (c : Command) (s : MonitorEngine × AuditLogger)
      → IsBounded s.0
      → suc n < max_accepted_event_ids
      → Recent id n s.0
      → Recent id (suc n) (after x c s).0
  after-Recent id n (accepts a e) (m, l) b k r = accept_extension_event-Recent id n a e m l b k r
  after-Recent id n (enqueues fresh clock e) (m, l) b k r =
      Recent-later (omega arith) (Recent-order m _ (enqueue_host_event-order fresh clock e m) r)
  after-Recent id n (polls answers i) (m, l) b k r =
      Recent-later (omega arith) (Recent-order m _ (poll-order answers i m l) r)

  run-Recent :
      (id : Uuid) (n k : ℕ) (cs : List Command) (s : MonitorEngine × AuditLogger)
      → n + length cs ≡ k
      → k < max_accepted_event_ids
      → IsBounded s.0
      → Recent id n s.0
      → Recent id k (run x cs s).0
  unfolding run
  run-Recent id n k [] s e h b r = Recent-later (omega (arith, e)) r
  run-Recent id n k (c ∷ cs) s e h b r =
      run-Recent id (suc n) k cs (after x c s) (omega (arith, e)) h (after-IsBounded x c s b)
        (after-Recent id n c s b (omega (arith, e, h)) r)

  Recent-has :
      (id : Uuid) (n : ℕ) (m : MonitorEngine)
      → IsBounded m
      → Recent id n m
      → has id m.accepted_event_ids ≡ true
  Recent-has id n m b r = ap (has id) (b.same ∙ r.place) ∙ has-place id r.older r.newer

  -- What a first acceptance has checked and done.
  first_accepted :
      (a : Appending) (e : MonitorEvent) (m m' : MonitorEngine) (l l' : AuditLogger)
      (alerts : List MonitorEvent)
      → has e.event_id m.accepted_event_ids ≡ false
      → accept_extension_event x a e m l ≡ (ok alerts, m', l')
      → ((event_validate e >> refuse_if (not (is_extension e.source)) (protocol monitor_source))
          ≡ ok tt)
        × (m' ≡ remember_event e.event_id m)
  unfolding accept_extension_event
  first_accepted a e m m' l l' alerts t h =
      elim (FcpResult-cases
        (event_validate e >> refuse_if (not (is_extension e.source)) (protocol monitor_source))) [
          | inr (f, q) ↦ absurd (cc (rw (q, accept_extension_event) at h))
          | inl (_, q) ↦ (q, done (audit_event x a e l) (rw (q, accept_extension_event, t) at h))
        ]
    where
      done :
          (r : FcpResult (Unit {0}) × AuditLogger)
          → accepted x e m r ≡ (ok alerts, m', l')
          → m' ≡ remember_event e.event_id m
      done (err f, l₁) s = absurd (cc s)
      done (ok _, l₁) s = cc s

  -- An event of the extension that is accepted for the first time, by an engine in any state that its
  -- commands reach, and is sent again after at most 511 commands, each of which accepts one id at
  -- most: it is acknowledged with its alert, and neither the engine nor the audit log changes. After
  -- 512 other ids it may have been forgotten, and nothing is said.
  pub accept_extension_event_again :
      (a a' : Appending) (e : MonitorEvent) (l₀ l' : AuditLogger) (m' : MonitorEngine)
      (before cs : List Command) (alerts : List MonitorEvent)
      → has e.event_id (run x before (monitor_new, l₀)).0.accepted_event_ids ≡ false
      → accept_extension_event x a e
          (run x before (monitor_new, l₀)).0
          (run x before (monitor_new, l₀)).1
        ≡ (ok alerts, m', l')
      → length cs < max_accepted_event_ids
      → let (m'', l'') = run x cs (m', l') in
        accept_extension_event x a' e m'' l'' ≡ (ok (e ∷ []), m'', l'')
  unfolding accept_extension_event
  accept_extension_event_again a a' e l₀ l' m' before cs alerts t h k =
      let s = run x before (monitor_new, l₀) in
      let (q, made) = first_accepted a e s.0 m' s.1 l' alerts t h in
      let last : Recent e.event_id 0 m' =
        subst (Recent e.event_id 0) (sym made) (remember_event-last e.event_id s.0) in
      let bounded : IsBounded m' =
        subst (λ (z : FcpResult (List MonitorEvent) × MonitorEngine × AuditLogger). IsBounded z.1) h
          (after-IsBounded x (accepts a e) s (monitor-IsBounded x before l₀)) in
      let kept =
        Recent-has e.event_id (length cs) (run x cs (m', l')).0 (run-keeps x cs (m', l') bounded)
          (run-Recent e.event_id 0 (length cs) cs (m', l') (omega arith) k bounded last) in
      rw (q, accept_extension_event, kept) refl
