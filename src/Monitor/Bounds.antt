-- ===== src/Monitor/Bounds.antt =====
-- The bounds of the queue and of the remembered ids over any run of commands.
use fursoy_vault.Prelude.{
  Uuid, ℕ, ◌+◌, ◌-◌, ◌≤◌, true, false, List, [], ◌∷◌, ◌++◌, ◌≡◌, inl, inr, refl, arith, sym, ap,
  ◌∙◌, ◌==◌, ◌||◌, not, length, length-append, Bool-cases,
}
use mathlib.Core.Path.{subst}
use fursoy_vault.Error.{FcpResult, FcpResult-cases}
use fursoy_vault.Monitor.{
  MonitorEvent, MonitorEngine, max_pending_events, max_accepted_event_ids, has, without,
  without_front, forgotten, forget_oldest, remembered, remember_event, enqueue_bounded, is_overflow,
}

abbrev Distinct : List Uuid → Type 0
Distinct [] = Unit {0}
Distinct (i ∷ ids) = (has i ids ≡ false) × Distinct ids

-- The queue and the memory are bounded, and the set holds each id of the order once.
pub record IsBounded (m : MonitorEngine) : Type 0 where
  pub queue : length m.pending ≤ max_pending_events
  pub memory : length m.accepted_event_order ≤ max_accepted_event_ids
  pub same : m.accepted_event_ids ≡ m.accepted_event_order
  pub once : Distinct m.accepted_event_order

without-absent : (id : Uuid) (ids : List Uuid) → has id ids ≡ false → without id ids ≡ ids
without-absent id [] h = refl
without-absent id (i ∷ ids) h = elim (Bool-cases (i == id)) [
  | inl t ↦ absurd (cc (rw t at h))
  | inr t ↦ rw t (cc (without-absent id ids (rw t at h)))
]

without-front : (id : Uuid) (ids : List Uuid) → has id ids ≡ false → without id (id ∷ ids) ≡ ids
without-front id ids h =
    let own : (id == id) ≡ true = ground arith in rw own (without-absent id ids h)

pub has-append :
    (id j : Uuid) (ids : List Uuid) → has id (ids ++ (j ∷ [])) ≡ (has id ids || (j == id))
has-append id j [] = ground arith
has-append id j (i ∷ ids) = elim (Bool-cases (i == id)) [
  | inl t ↦ rw t refl
  | inr t ↦ rw t (has-append id j ids)
]

Distinct-append :
    (id : Uuid) (ids : List Uuid) → has id ids ≡ false → Distinct ids → Distinct (ids ++ (id ∷ []))
Distinct-append id [] h d = (refl, tt)
Distinct-append id (i ∷ ids) h d = elim (Bool-cases (i == id)) [
  | inl t ↦ absurd (cc (rw t at h))
  | inr t ↦
      let other : (id == i) ≡ false = ground (arith, t) in
      (rw (has-append i id ids, d.0, other) refl, Distinct-append id ids (rw t at h) d.1)
]

remembered-IsBounded :
    (id : Uuid) (m : MonitorEngine)
    → has id m.accepted_event_order ≡ false
    → length m.accepted_event_order + 1 ≤ max_accepted_event_ids
    → IsBounded m
    → IsBounded (remembered id m)
remembered-IsBounded id m h n b = record {
  queue = b.queue;
  memory = rw (length-append m.accepted_event_order (id ∷ [])) n;
  same = rw (b.same, h) refl;
  once = Distinct-append id m.accepted_event_order h b.once;
}

forgotten-IsBounded :
    (id : Uuid) (order : List Uuid) (m : MonitorEngine)
    → m.accepted_event_order ≡ order
    → has id order ≡ false
    → length order ≡ max_accepted_event_ids
    → IsBounded m
    → (has id (forgotten order m).accepted_event_order ≡ false)
      × (length (forgotten order m).accepted_event_order + 1 ≤ max_accepted_event_ids)
      × IsBounded (forgotten order m)
forgotten-IsBounded id [] m e h n b = absurd (omega (arith, n))
forgotten-IsBounded id (oldest ∷ rest) m e h n b =
    let d : Distinct (oldest ∷ rest) = subst Distinct e b.once in
    (
      elim (Bool-cases (oldest == id)) [ inl t ↦ absurd (cc (rw t at h)) | inr t ↦ rw t at h ],
      omega (arith, n),
      record {
        queue = b.queue;
        memory = omega (arith, n);
        same = ap (without oldest) (b.same ∙ e) ∙ without-front oldest rest d.0;
        once = d.1;
      },
    )

pub remember_event-IsBounded :
    (id : Uuid) (m : MonitorEngine)
    → has id m.accepted_event_ids ≡ false
    → IsBounded m
    → IsBounded (remember_event id m)
unfolding remember_event
remember_event-IsBounded id m h b =
    let absent : has id m.accepted_event_order ≡ false = ap (has id) (sym b.same) ∙ h in
    let size : length m.accepted_event_ids ≡ length m.accepted_event_order =
      ap (λ (z : List Uuid). length z) b.same in
    elim (Bool-cases (length m.accepted_event_ids == max_accepted_event_ids)) [
      | inl t ↦
          let (h', n, b') =
            forgotten-IsBounded id m.accepted_event_order m refl absent (ground (arith, t, size))
              b in
          rw t (remembered-IsBounded id (forget_oldest m) h' n b')
      | inr t ↦ rw t (remembered-IsBounded id m absent (ground (arith, t, size, b.memory)) b)
    ]

length-front : {A : Type 0} (xs : List A) → length (without_front xs) ≡ length xs - 1
length-front [] = refl
length-front (a ∷ xs) = omega arith

pub length-enqueue_bounded :
    (fresh : Uuid) (clock : FcpResult ℕ) (e : MonitorEvent) (queue : List MonitorEvent)
    → length queue ≤ max_pending_events
    → length (enqueue_bounded fresh clock e queue).1 ≤ max_pending_events
unfolding enqueue_bounded
length-enqueue_bounded fresh clock e queue h =
    elim (Bool-cases (not (length queue == max_pending_events))) [
      | inl t ↦ rw (t, length-append queue (e ∷ [])) (ground (arith, t))
      | inr t ↦ elim (Bool-cases (is_overflow e.signal)) [
        | inl o ↦
            rw (t, o, length-append (without_front queue) (e ∷ []), length-front queue)
              (ground (arith, t))
        | inr o ↦ elim (FcpResult-cases clock) [
          | inr (f, c) ↦ rw (t, o, c, enqueue_bounded, length-front queue) (ground (arith, h))
          | inl (now, c) ↦
              rw (t, o, c, enqueue_bounded)
                (omega (
                  arith,
                  h,
                  length-append (without_front (without_front queue ++ (_ ∷ []))) (e ∷ []),
                  length-front (without_front queue ++ (_ ∷ [])),
                  length-append (without_front queue) (_ ∷ []),
                  length-front queue,
                ))
        ]
      ]
    ]
