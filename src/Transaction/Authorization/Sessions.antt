-- ===== src/Transaction/Authorization/Sessions.antt =====
-- An opened group through an authorization and its read, and an authorization that is answered late.
use fursoy_vault.Prelude.{
  Uuid, true, Option, none, List, is_none, ◌≡◌, inl, inr, refl, arith, sym, ap, ◌∙◌, ◌==◌, eqb_refl,
  not, Bool-cases, Option-cases,
}
use mathlib.Core.Path.{subst}
use fursoy_vault.Error.{FcpError, FcpResult, FcpResult-cases, ok, err, >>=-eq-ok, ok-injective}
use fursoy_vault.AtomicFile.{FileState, Faults}
use fursoy_vault.Vault.Format.{UuidBytes}
use fursoy_vault.Vault.Sealed.{VaultCrates}
use fursoy_vault.Vault.Store.{VaultFiles}
use fursoy_vault.Transaction.{Platform}
use fursoy_vault.Lease.Capability.{CapabilityOperation-discrete, inject}
use fursoy_vault.Lease.Ledger.{
  ConsumedCapability, CapabilityLedger, LedgerHost, LedgerJson, cancel_pending, ledger_new, load,
  load_or_initialize, host_of, persist_ledger,
}
use fursoy_vault.Lease.Ledger.Keeps.{persist_ledger-ok}
use fursoy_vault.Transaction.Authorization.{
  VaultTransactions, Authorizing, opened, discard_pending, open_transactions, authorize_inject,
  require_authorization, read_payload, read_for_inject,
}
use fursoy_vault.Transaction.Authorization.Granted.{authorize_inject-Granted}

-- A group whose transactions are open: its ledger is its own, and nothing is pending.
pub record IsOpen (group : Uuid) (vault : VaultFiles) (t : VaultTransactions) : Type 0 where
  pub group_id : t.group_id ≡ group
  pub files : t.vault ≡ vault
  pub ledger_group : t.host.ledger.account_group_id ≡ group
  pub nothing_pending : t.host.ledger.pending ≡ none

ledger_new-group :
    (group : Uuid) (l : CapabilityLedger) → ledger_new group ≡ ok l → l.account_group_id ≡ group
unfolding ledger_new
ledger_new-group group l h = ground arith

module _ (j : LedgerJson) where
  loaded_group :
      (fault : Option FcpError) (file : FileState) (faults : List Faults) (group : Uuid)
      (h : LedgerHost)
      → load_or_initialize j fault file faults group ≡ ok h
      → h.ledger.account_group_id ≡ group
  unfolding load_or_initialize
  loaded_group fault file faults group h e = elim (Option-cases file.target) [
    | inl n ↦ elim (FcpResult-cases (ledger_new group)) [
      | inr (f, q) ↦ absurd (cc (rw (n, load_or_initialize, q) at e))
      | inl (l, q) ↦ made l (ledger_new-group group l q) _ refl (rw (n, load_or_initialize, q) at e)
    ]
    | inr (b, s) ↦ elim (FcpResult-cases (load j fault file)) [
      | inr (f, q) ↦ absurd (cc (rw (s, load_or_initialize, q) at e))
      | inl (l, q) ↦ elim (Bool-cases (l.account_group_id == group)) [
        | inr x ↦ absurd (cc (rw (s, load_or_initialize, q, x) at e))
        | inl x ↦
            ap (λ (z : LedgerHost). z.ledger.account_group_id)
              (sym (ok-injective (rw (s, load_or_initialize, q, x) at e)))
            ∙ ground arith
      ]
    ]
  ]
    where
      made :
          (l : CapabilityLedger)
          → l.account_group_id ≡ group
          → (r : FcpResult (Unit {0}) × LedgerHost)
          → persist_ledger j tt l (record { ledger = l; file = file; faults = faults }) ≡ r
          → host_of j r ≡ ok h
          → h.ledger.account_group_id ≡ group
      made l g (err f, h') q e = absurd (cc e)
      made l g (ok a, h') q e =
          let (_, m, _) = persist_ledger-ok j tt a l _ h' q in
          ap (λ (z : LedgerHost). z.ledger.account_group_id) (sym (ok-injective e))
          ∙ ap (λ (z : CapabilityLedger). z.account_group_id) m
          ∙ g

  discard_pending-ok :
      (h h' : LedgerHost)
      → discard_pending j h ≡ (ok tt, h')
      → (h'.ledger.account_group_id ≡ h.ledger.account_group_id) × (h'.ledger.pending ≡ none)
  unfolding discard_pending cancel_pending
  discard_pending-ok h h' e = elim (Option-cases h.ledger.pending) [
    | inl n ↦
        let same : h ≡ h' = cc (rw (n, discard_pending) at e) in
        (
          ap (λ (z : LedgerHost). z.ledger.account_group_id) (sym same),
          ap (λ (z : LedgerHost). z.ledger.pending) (sym same) ∙ n,
        )
    | inr (p, s) ↦
        let waiting : not (is_none h.ledger.pending) ≡ true = rw s refl in
        let (_, l, _) =
          persist_ledger-ok j tt tt (record h.ledger { pending = none }) h h'
            (rw (waiting, discard_pending) at e) in
        (
          ap (λ (z : CapabilityLedger). z.account_group_id) l,
          ap (λ (z : CapabilityLedger). z.pending) l,
        )
  ]

  open_transactions-IsOpen :
      (fault : Option FcpError) (group : Uuid) (vault : VaultFiles) (file : FileState)
      (faults : List Faults) (t : VaultTransactions)
      → open_transactions j fault group vault file faults ≡ ok t
      → IsOpen group vault t
  unfolding open_transactions
  open_transactions-IsOpen fault group vault file faults t e =
      let (h, q, e) = >>=-eq-ok (load_or_initialize j fault file faults group) _ e in
      opens h (loaded_group fault file faults group h q) (discard_pending j h) refl e
    where
      opens :
          (h : LedgerHost)
          → h.ledger.account_group_id ≡ group
          → (r : FcpResult (Unit {0}) × LedgerHost) → discard_pending j h ≡ r
          → opened j group vault r ≡ ok t
          → IsOpen group vault t
      opens h g (err f, h') q e = absurd (cc e)
      opens h g (ok a, h') q e =
          let (g', n) = discard_pending-ok h h' q in
          subst (IsOpen group vault) (ok-injective e)
            (record { group_id = refl; files = refl; ledger_group = g' ∙ g; nothing_pending = n })

module _ {C : Type 0} (u : UuidBytes) (c : VaultCrates C) (k : Platform) (j : LedgerJson) where
  -- From the opening of a group to the read: the opened ledger is the group's own with nothing
  -- pending, whatever an earlier process left, and a token that its authorization returns lets the
  -- read reach the vault file that was opened, so that only the file, the key service or the payload
  -- can still refuse.
  pub authorized_read :
      (fault read_fault : Option FcpError) (group : Uuid) (vault : VaultFiles) (file : FileState)
      (faults : List Faults) (t t' : VaultTransactions) (a : Authorizing)
      (token : ConsumedCapability)
      → open_transactions j fault group vault file faults ≡ ok t
      → authorize_inject j a t ≡ (ok token, t')
      → IsOpen group vault t
        × (read_for_inject u c k read_fault token t' ≡ read_payload u c k read_fault vault)
  unfolding read_for_inject require_authorization authorize_inject
  authorized_read fault read_fault group vault file faults t t' a token o e =
      let open_t = open_transactions-IsOpen j fault group vault file faults t o in
      let granted = authorize_inject-Granted j a t t' token e in
      let same = ap (λ (z : FcpResult ConsumedCapability × VaultTransactions). z.1.vault) e in
      let group_kept =
        ap (λ (z : FcpResult ConsumedCapability × VaultTransactions). z.1.group_id) e in
      let g : token.account_group_id ≡ t'.group_id =
        granted.group ∙ open_t.ledger_group ∙ sym open_t.group_id ∙ group_kept in
      let v : t'.vault ≡ vault = sym same ∙ open_t.files in
      let own : (t'.group_id == t'.group_id) ≡ true = ground arith in
      (
        open_t,
        rw
            (
              read_for_inject,
              require_authorization,
              g,
              granted.operation,
              own,
              eqb_refl CapabilityOperation-discrete inject,
              v,
            )
            refl,
      )
