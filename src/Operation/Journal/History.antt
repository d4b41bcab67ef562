-- ===== src/Operation/Journal/History.antt =====
-- How a journal grows: what every run of the store's commands keeps of each operation.
use fursoy_vault.Prelude.{
  Uuid, Bytes, ℕ, Bool, true, false, Option, none, some, List, [], ◌∷◌, ◌++◌, ◌≡◌, ◌≢◌, ◌⊎◌, inl,
  inr, refl, arith, sym, ap, ◌∙◌, Bool-cases, ◌==◌,
}
use mathlib.Core.Path.{subst}
use fursoy_vault.Operation.Model.{
  OperationKind, OperationPhase, committed, not_committed, durability_unknown, aborted,
  can_transition_to, is_terminal, OperationRequest, SnapshotBinding, JournalOperation,
  OperationJournal, Externals, request_of,
}
use fursoy_vault.Operation.Journal.{
  JournalStore, find_operation, replace_operation, begin, issue, bind_snapshot, transition,
}
use fursoy_vault.Operation.Journal.Steps.{
  Change, adds, binds, moves, Effect, begin-Effect, issue-Effect, bind_snapshot-Effect,
  transition-Effect,
}

-- A way through the transition table.
infix 40 ◌⟶*◌
pub data ◌⟶*◌ : OperationPhase → OperationPhase → Type 0 where
  here : {p : OperationPhase} → p ⟶* p
  then : {p q r : OperationPhase} → can_transition_to p q ≡ true → q ⟶* r → p ⟶* r

pub ⟶*_trans : {p q r : OperationPhase} → p ⟶* q → q ⟶* r → p ⟶* r
⟶*_trans here t = t
⟶*_trans (then e s) t = then e (⟶*_trans s t)

-- One operation at two times: what was requested stays, the phase follows the table, and a snapshot
-- binding, once there, is never exchanged.
pub record Evolves (o o' : JournalOperation) : Type 0 where
  pub same_request : request_of o' ≡ request_of o
  pub same_sequence : o'.sequence ≡ o.sequence
  pub same_fingerprint : o'.request_fingerprint ≡ o.request_fingerprint
  pub path : o.phase ⟶* o'.phase
  pub binding_kept : (o.snapshot ≡ none) ⊎ (o'.snapshot ≡ o.snapshot)

kept_through :
    {a b c : Option SnapshotBinding}
    → (a ≡ none) ⊎ (b ≡ a)
    → (b ≡ none) ⊎ (c ≡ b)
    → (a ≡ none) ⊎ (c ≡ a)
kept_through (inl n) q = inl n
kept_through (inr e) (inl m) = inl (sym e ∙ m)
kept_through (inr e) (inr f) = inr (f ∙ e)

pub kept_binding :
    {o o' : JournalOperation} → Evolves o o' → o.snapshot ≢ none → o'.snapshot ≡ o.snapshot
kept_binding v n = elim v.binding_kept [ inl e ↦ absurd (n e) | inr e ↦ e ]

pub Evolves-refl : (o : JournalOperation) → Evolves o o
Evolves-refl o = record {
  same_request = refl;
  same_sequence = refl;
  same_fingerprint = refl;
  path = here;
  binding_kept = inr refl;
}

pub Evolves-trans : {a b c : JournalOperation} → Evolves a b → Evolves b c → Evolves a c
Evolves-trans p q = record {
  same_request = q.same_request ∙ p.same_request;
  same_sequence = q.same_sequence ∙ p.same_sequence;
  same_fingerprint = q.same_fingerprint ∙ p.same_fingerprint;
  path = ⟶*_trans p.path q.path;
  binding_kept = kept_through p.binding_kept q.binding_kept;
}

-- A later journal has the operations of the earlier one first, in their order.
abbrev pub Extends : List JournalOperation → List JournalOperation → Type 0
Extends [] later = Unit {0}
Extends (o ∷ os) [] = ⊥
Extends (o ∷ os) (o' ∷ os') = Evolves o o' × Extends os os'

pub Extends-refl : (os : List JournalOperation) → Extends os os
Extends-refl [] = tt
Extends-refl (o ∷ os) = (Evolves-refl o, Extends-refl os)

pub Extends-trans : (a b c : List JournalOperation) → Extends a b → Extends b c → Extends a c
Extends-trans [] b c p q = tt
Extends-trans (x ∷ a) [] c p q = absurd p
Extends-trans (x ∷ a) (y ∷ b) [] p q = absurd q
Extends-trans (x ∷ a) (y ∷ b) (z ∷ c) p q = (Evolves-trans p.0 q.0, Extends-trans a b c p.1 q.1)

Extends-append : (os more : List JournalOperation) → Extends os (os ++ more)
Extends-append [] more = tt
Extends-append (o ∷ os) more = (Evolves-refl o, Extends-append os more)

Extends-replace :
    (id : Uuid) (o new : JournalOperation) (os : List JournalOperation)
    → find_operation id os ≡ some o
    → Evolves o new
    → Extends os (replace_operation id new os)
unfolding find_operation replace_operation
Extends-replace id o new [] f e = tt
Extends-replace id o new (p ∷ os) f e = elim (Bool-cases (p.operation_id == id)) [
  | inl t ↦ rw t (subst (λ a. Evolves a new) (sym (found (rw t at f))) e, Extends-refl os)
  | inr t ↦ rw t (Evolves-refl p, Extends-replace id o new os (rw t at f) e)
]
  where
    found : some p ≡ some o → p ≡ o
    found h = cc

Change-Extends : {j j' : OperationJournal} → Change j j' → Extends j.operations j'.operations
Change-Extends (adds j o f s b p n) = Extends-append j.operations (o ∷ [])
Change-Extends (binds j id o b f n p) =
    Extends-replace id o (record o { snapshot = some b }) j.operations f
      (record {
        same_request = refl;
        same_sequence = refl;
        same_fingerprint = refl;
        path = here;
        binding_kept = inl n;
      })
Change-Extends (moves j id o p f t c) =
    Extends-replace id o (record o { phase = p }) j.operations f
      (record {
        same_request = refl;
        same_sequence = refl;
        same_fingerprint = refl;
        path = then t here;
        binding_kept = inr refl;
      })

-- The commands of the store.
pub data Command : Type 0 where
  begins : OperationRequest → Command
  issues : Uuid → OperationKind → Option Uuid → Bytes → ℕ → Command
  binds_snapshot : Uuid → SnapshotBinding → Command
  transitions : Uuid → OperationPhase → Command

-- The store after a command, whatever its result.
abbrev pub after : Externals → Command → JournalStore → JournalStore
after x (begins r) s = (begin x r s).1
after x (issues id k l r b) s = (issue x id k l r b s).1
after x (binds_snapshot id b) s = (bind_snapshot x id b s).1
after x (transitions id p) s = (transition x id p s).1

unfoldable pub run : Externals → List Command → JournalStore → JournalStore
run x [] s = s
run x (c ∷ cs) s = run x cs (after x c s)

pub after-Effect : (x : Externals) (c : Command) (s : JournalStore) → Effect x s (after x c s)
after-Effect x (begins r) s = begin-Effect x r s
after-Effect x (issues id k l r b) s = issue-Effect x id k l r b s
after-Effect x (binds_snapshot id b) s = bind_snapshot-Effect x id b s
after-Effect x (transitions id p) s = transition-Effect x id p s

pub Effect-Extends :
    (x : Externals) (s s' : JournalStore)
    → Effect x s s'
    → Extends s.journal.operations s'.journal.operations
Effect-Extends x s s' e = elim e.cases [
  | inl (same, _) ↦ rw same (Extends-refl s.journal.operations)
  | inr (c, _, _) ↦ Change-Extends c
]

-- Whatever commands run and whatever the operating system answers, every operation keeps its place,
-- its request, its sequence and its fingerprint, its phase only follows the transition table, and
-- its snapshot binding is never exchanged.
pub run-Extends :
    (x : Externals) (cs : List Command) (s : JournalStore)
    → Extends s.journal.operations (run x cs s).journal.operations
unfolding run
run-Extends x [] s = Extends-refl s.journal.operations
run-Extends x (c ∷ cs) s =
    Extends-trans s.journal.operations (after x c s).journal.operations _
      (Effect-Extends x s (after x c s) (after-Effect x c s)) (run-Extends x cs (after x c s))

pub Extends-find :
    (id : Uuid) (os later : List JournalOperation) {o : JournalOperation}
    → Extends os later
    → find_operation id os ≡ some o
    → (o' : JournalOperation) × (find_operation id later ≡ some o') × Evolves o o'
unfolding find_operation
Extends-find id [] later e f = absurd (cc f)
Extends-find id (p ∷ os) [] e f = absurd e
Extends-find id (p ∷ os) (p' ∷ later) {o} (e, es) f = elim (Bool-cases (p.operation_id == id)) [
  | inl t ↦ (
    p',
    rw (ap (λ (r : OperationRequest). r.operation_id) e.same_request) (rw t),
    subst (λ a. Evolves a p') (found (rw t at f)) e,
  )
  | inr t ↦
      let (o', g, v) = Extends-find id os later es (rw t at f) in
      (o', rw (ap (λ (r : OperationRequest). r.operation_id) e.same_request) (rw t g), v)
]
  where
    found : some p ≡ some o → p ≡ o
    found h = cc

terminal_stays : {p q : OperationPhase} → p ⟶* q → is_terminal p ≡ true → q ≡ p
unfolding is_terminal can_transition_to
terminal_stays here h = refl
terminal_stays (then {p = p} {q = q} e t) h = ground arith

-- An operation in a terminal phase is found again after any run, in the same phase.
pub terminal_absorbs :
    (x : Externals) (cs : List Command) (s : JournalStore) (id : Uuid) (o : JournalOperation)
    → find_operation id s.journal.operations ≡ some o
    → is_terminal o.phase ≡ true
    → (o' : JournalOperation) × (find_operation id (run x cs s).journal.operations ≡ some o')
      × (o'.phase ≡ o.phase)
      × (o'.sequence ≡ o.sequence)
terminal_absorbs x cs s id o f t =
    let (o', g, v) = Extends-find id s.journal.operations _ (run-Extends x cs s) f in
    (o', g, terminal_stays v.path t, v.same_sequence)

-- The vault write of an operation has taken effect.
unfoldable pub is_past_commit : OperationPhase → Bool
is_past_commit not_committed = false
is_past_commit durability_unknown = false
is_past_commit aborted = false
is_past_commit _ = true

past_commit_stays :
    {p q : OperationPhase} → p ⟶* q → is_past_commit p ≡ true → is_past_commit q ≡ true
unfolding is_past_commit can_transition_to
past_commit_stays here h = h
past_commit_stays (then {p = p} {q = q} e t) h = past_commit_stays t (ground arith)

-- A committed operation is never taken back: after any run it is found again, neither aborted nor
-- not committed nor of unknown durability, with the snapshot binding that it had.
pub committed_stays :
    (x : Externals) (cs : List Command) (s : JournalStore) (id : Uuid) (o : JournalOperation)
    → find_operation id s.journal.operations ≡ some o
    → o.phase ≡ committed
    → o.snapshot ≢ none
    → (o' : JournalOperation) × (find_operation id (run x cs s).journal.operations ≡ some o')
      × (is_past_commit o'.phase ≡ true)
      × (o'.snapshot ≡ o.snapshot)
unfolding is_past_commit
committed_stays x cs s id o f p n =
    let (o', g, v) = Extends-find id s.journal.operations _ (run-Extends x cs s) f in
    (o', g, past_commit_stays v.path (rw p), kept_binding v n)
