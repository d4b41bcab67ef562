-- ===== src/Operation/Coordinator.antt =====
-- native-host/src/operation/coordinator.rs: the commands of a group over its journal, its snapshot
-- key and its vault. A method that takes `&mut self` returns its result and the coordinator.
use fursoy_vault.Prelude.{
  Bytes, bytes_eq, Uuid, is_nil, is_none, ℕ, Bool, false, Option, none, some, List, [], ◌∷◌, ◌≡◌,
  refl, ◌==◌, not, any, ◌&&◌, ◌||◌, if◌then◌else◌,
}
use fursoy_vault.Error.{
  FcpResult, ok, err, ◌>>=◌, ◌>>◌, refuse_if, ok_or, protocol, format, profile_id_nil,
  profile_binding_changed, operation_unresolved, unknown_operation, operation_binding_mismatch,
  no_profile_binding, no_committed_snapshot, host_id_collided,
}
use fursoy_vault.Operation.Model.{
  OperationKind, browser_removal_pending, completed, aborted, reconciliation_required, phase_eq,
  is_terminal, JournalOperation, Externals,
}
use fursoy_vault.Operation.Journal.{
  JournalStore, BeginResult, created, duplicate, operation, begin, transition,
}
use fursoy_vault.Operation.Fingerprint.{SnapshotTagContext, tag}
use fursoy_vault.Vault.Format.{UuidBytes}

pub record StartupRecovery : Type 0 where
  pub needs_reconciliation : Bool
  pub committed_operation_id : Option Uuid
  pub committed_vault_sequence : Option ℕ

pub record OperationCoordinator : Type 0 where
  pub journal : JournalStore
  pub key : Bytes  -- of the snapshot tagger
  pub profile_id : Option Uuid

unfoldable pub set_profile_id :
    Uuid → OperationCoordinator → FcpResult (Unit {0}) × OperationCoordinator
set_profile_id id c = if is_nil id then (err (protocol profile_id_nil), c) else elim c.profile_id [
  | none ↦ (ok tt, record c { profile_id = some id })
  | some existing ↦
      if existing == id
      then (ok tt, record c { profile_id = some id })
      else (err (protocol profile_binding_changed), c)
]

abbrev pub is_unresolved : JournalOperation → Bool
is_unresolved o = not (is_terminal o.phase)

unfoldable pub has_unresolved : OperationCoordinator → Bool
has_unresolved c = any is_unresolved c.journal.journal.operations

-- The ids that the loops of `startup_recover` and `prepare_for_v6_reconciliation` run over.
unfoldable pub active_ids : List JournalOperation → List Uuid
active_ids [] = []
active_ids (o ∷ os) = if is_unresolved o then o.operation_id ∷ active_ids os else active_ids os

find_attempt : Uuid → List JournalOperation → Option JournalOperation
find_attempt attempt_id [] = none
find_attempt attempt_id (o ∷ os) = elim o.attempt_id [
  | none ↦ find_attempt attempt_id os
  | some a ↦ if a == attempt_id then some o else find_attempt attempt_id os
]

unfoldable pub operation_by_attempt : Uuid → OperationCoordinator → Option JournalOperation
unfolding find_attempt
operation_by_attempt attempt_id c = find_attempt attempt_id c.journal.journal.operations

unfoldable pub completed_projection : Uuid → OperationCoordinator → Option JournalOperation
completed_projection id c = elim (operation id c.journal) [
  | none ↦ none
  | some o ↦ if phase_eq o.phase completed then some o else none
]

-- The store after a command goes back into the coordinator.
abbrev pub updating {ℓ} :
    {A : Type ℓ}
    → OperationCoordinator
    → FcpResult A × JournalStore
    → FcpResult A × OperationCoordinator
updating c (r, s) = (r, record c { journal = s })

abbrev created_or_duplicate :
    FcpResult BeginResult × JournalStore → FcpResult JournalOperation × JournalStore
created_or_duplicate (ok (created o), s) = (ok o, s)
created_or_duplicate (ok (duplicate o), s) = (ok o, s)
created_or_duplicate (err e, s) = (err e, s)

abbrev issued : FcpResult BeginResult × JournalStore → FcpResult JournalOperation × JournalStore
issued (ok (created o), s) = (ok o, s)
issued (ok (duplicate o), s) = (err (format host_id_collided), s)
issued (err e, s) = (err e, s)

-- A command that fails ends the handler; otherwise the next one runs on the store that it left.
infixl 5 ◌>>-◌
abbrev pub ◌>>-◌ {ℓ κ} :
    {A : Type ℓ} {B : Type κ}
    → FcpResult A × JournalStore
    → (A → JournalStore → FcpResult B × JournalStore)
    → FcpResult B × JournalStore
(ok a, s) >>- f = f a s
(err e, s) >>- f = (err e, s)

pub >>--ok {ℓ κ} :
    {A : Type ℓ} {B : Type κ} (p : FcpResult A × JournalStore)
    (f : A → JournalStore → FcpResult B × JournalStore) (b : B) (s' : JournalStore)
    → (p >>- f) ≡ (ok b, s')
    → (a : A) × (t : JournalStore) × ◌≡◌ {A = FcpResult A × JournalStore} p (ok a, t)
      × (f a t ≡ (ok b, s'))
>>--ok (ok a, s) f b s' h = (a, s, refl, h)
>>--ok (err e, s) f b s' h = absurd (cc h)

module _ (x : Externals) where
  unfoldable pub begin_v6 :
      Uuid
      → OperationKind
      → Option Uuid
      → Bytes
      → ℕ
      → OperationCoordinator
      → FcpResult JournalOperation × OperationCoordinator
  begin_v6 id kind lease_id reason_code base c =
      if is_none (operation id c.journal) && has_unresolved c
      then (err (protocol operation_unresolved), c)
      else updating c (
          created_or_duplicate (
            begin x
              (record {
                operation_id = id;
                attempt_id = none;
                kind = kind;
                lease_id = lease_id;
                reason_code = reason_code;
                base_vault_sequence = base;
              })
              c.journal))

  -- `new_id` is the UUID that `Uuid::new_v4` draws.
  unfoldable pub issue_v7 :
      Uuid
      → Uuid
      → OperationKind
      → Option Uuid
      → Bytes
      → ℕ
      → OperationCoordinator
      → FcpResult JournalOperation × OperationCoordinator
  issue_v7 new_id attempt_id kind lease_id reason_code base c =
      if has_unresolved c
      then (err (protocol operation_unresolved), c)
      else updating c (
          issued (
            begin x
              (record {
                operation_id = new_id;
                attempt_id = some attempt_id;
                kind = kind;
                lease_id = lease_id;
                reason_code = reason_code;
                base_vault_sequence = base;
              })
              c.journal))

  -- `mark_external_result_pending`, `complete`, `abort` and `require_reconciliation`.
  unfoldable pub mark_external_result_pending :
      Uuid → OperationCoordinator → FcpResult (Unit {0}) × OperationCoordinator
  mark_external_result_pending id c = updating c (transition x id browser_removal_pending c.journal)

  unfoldable pub complete :
      Uuid → OperationCoordinator → FcpResult (Unit {0}) × OperationCoordinator
  complete id c = updating c (transition x id completed c.journal)

  unfoldable pub abort : Uuid → OperationCoordinator → FcpResult (Unit {0}) × OperationCoordinator
  abort id c = updating c (transition x id aborted c.journal)

  unfoldable pub require_reconciliation :
      Uuid → OperationCoordinator → FcpResult (Unit {0}) × OperationCoordinator
  require_reconciliation id c = updating c (transition x id reconciliation_required c.journal)

  abbrev same_attempt : Uuid → JournalOperation → Bool
  same_attempt attempt_id o = elim o.attempt_id [ none ↦ false | some a ↦ a == attempt_id ]

  abbrev pub context_of : Uuid → Uuid → JournalOperation → OperationCoordinator → SnapshotTagContext
  context_of profile_id id o c = record {
    profile_id = profile_id;
    account_group_id = c.journal.journal.account_group_id;
    operation_id = id;
    operation_sequence = o.sequence;
    base_vault_sequence = o.base_vault_sequence;
  }

  unfoldable pub verify_snapshot :
      UuidBytes → Uuid → ℕ → Uuid → Bytes → OperationCoordinator → FcpResult Bool
  verify_snapshot u id operation_sequence attempt_id canonical_snapshot c = do
    o ← ok_or (operation id c.journal) (protocol unknown_operation)
    refuse_if (not (o.sequence == operation_sequence) || not (same_attempt attempt_id o))
        (protocol operation_binding_mismatch)
    profile_id ← ok_or c.profile_id (protocol no_profile_binding)
    expected ← ok_or o.snapshot (protocol no_committed_snapshot)
    ok (
        bytes_eq (tag x.sha256 u c.key (context_of profile_id id o c) canonical_snapshot)
          expected.snapshot_tag)
