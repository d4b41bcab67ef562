-- ===== src/Transaction/Authorization.antt =====
-- native-host/src/transaction.rs: the opening of a group's transactions, the authorization of one
-- use, and the read that it allows. The state is the vault file and the ledger with its file.
pub mod Granted
pub mod Sessions
pub mod Late
use fursoy_vault.Prelude.{
  Bytes, Uuid, ℕ, Option, none, some, List, true, false, is_none, ◌==◌, eqb, not, if◌then◌else◌,
}
use fursoy_vault.Error.{
  FcpError, FcpResult, ok, err, ◌>>=◌, ◌>>◌, refuse_if, capability, token_of_another_group,
  token_operation_mismatch,
}
use fursoy_vault.AtomicFile.{FileState, Faults}
use fursoy_vault.Vault.Format.{UuidBytes}
use fursoy_vault.Vault.Sealed.{VaultPayload, VaultCrates, open_record}
use fursoy_vault.Vault.Store.{VaultFiles, read_vault}
use fursoy_vault.Transaction.{Platform}
use fursoy_vault.Lease.Capability.{
  CapabilityOperation, CapabilityOperation-discrete, inject, CapabilityPayload, SignedCapability,
}
use fursoy_vault.Lease.Ledger.{
  ConsumedCapability, CapabilityLedger, LedgerHost, LedgerJson, load_or_initialize, reserve,
  cancel_pending, verify_and_consume,
}

abbrev pub capability_lifetime_ms : ℕ
capability_lifetime_ms = 60000

pub record VaultTransactions : Type 0 where
  pub group_id : Uuid
  pub vault : VaultFiles
  pub host : LedgerHost

-- What the world answers to one authorization: both readings of the clock, the random source, and
-- the platform's signer and verifier.
pub record Authorizing : Type 0 where
  pub now : FcpResult ℕ
  pub drawn : FcpResult Bytes
  pub sign : CapabilityPayload → FcpResult SignedCapability
  pub now_signed : FcpResult ℕ
  pub verify_signature : SignedCapability → FcpResult (Unit {0})

module _ (j : LedgerJson) where
  abbrev opened :
      Uuid → VaultFiles → FcpResult (Unit {0}) × LedgerHost → FcpResult VaultTransactions
  opened group vault (ok _, h) = ok (record { group_id = group; vault = vault; host = h })
  opened group vault (err e, h) = err e

  -- A reservation that an earlier process left is discarded.
  unfoldable pub discard_pending : LedgerHost → FcpResult (Unit {0}) × LedgerHost
  discard_pending h = if not (is_none h.ledger.pending) then cancel_pending j h else (ok tt, h)

  -- An opening that fails gives no transactions; its error drops the ledger in memory.
  unfoldable pub open_transactions :
      Option FcpError → Uuid → VaultFiles → FileState → List Faults → FcpResult VaultTransactions
  open_transactions fault group vault file faults = do
    h ← load_or_initialize j fault file faults group
    opened group vault (discard_pending h)

  abbrev cancelled :
      FcpError → FcpResult (Unit {0}) × LedgerHost → FcpResult ConsumedCapability × LedgerHost
  cancelled e (ok _, h) = (err e, h)
  cancelled e (err f, h) = (err f, h)

  -- What follows the answer of the signer.
  unfoldable pub consume_signed :
      Authorizing
      → FcpResult SignedCapability
      → LedgerHost
      → FcpResult ConsumedCapability × LedgerHost
  consume_signed a (err e) h = cancelled e (cancel_pending j h)
  consume_signed a (ok signed) h = elim a.now_signed [
    | err e ↦ (err e, h)
    | ok now ↦ verify_and_consume j a.verify_signature signed inject now h
  ]

  abbrev sign_reserved :
      Authorizing
      → FcpResult CapabilityPayload × LedgerHost
      → FcpResult ConsumedCapability × LedgerHost
  sign_reserved a (err e, h) = (err e, h)
  sign_reserved a (ok p, h) = consume_signed a (a.sign p) h

  unfoldable pub authorize_ledger :
      Authorizing → LedgerHost → FcpResult ConsumedCapability × LedgerHost
  authorize_ledger a h = elim a.now [
    | err e ↦ (err e, h)
    | ok now ↦ sign_reserved a (reserve j a.drawn inject now capability_lifetime_ms h)
  ]

  abbrev hosted :
      VaultTransactions
      → FcpResult ConsumedCapability × LedgerHost
      → FcpResult ConsumedCapability × VaultTransactions
  hosted t (r, h) = (r, record t { host = h })

  unfoldable pub authorize_inject :
      Authorizing → VaultTransactions → FcpResult ConsumedCapability × VaultTransactions
  authorize_inject a t = hosted t (authorize_ledger a t.host)

unfoldable pub require_authorization :
    Uuid → ConsumedCapability → CapabilityOperation → FcpResult (Unit {0})
require_authorization group token expected = do
  refuse_if (not (token.account_group_id == group)) (capability token_of_another_group)
  refuse_if (not (eqb CapabilityOperation-discrete token.operation expected))
      (capability token_operation_mismatch)

module _ {C : Type 0} (u : UuidBytes) (c : VaultCrates C) (k : Platform) where
  -- What the read does after its check of the token.
  unfoldable pub read_payload : Option FcpError → VaultFiles → FcpResult (VaultPayload C)
  read_payload fault v = do
    r ← read_vault u c fault v
    dek ← k.unwrap_dek r.header.wrapped_dek
    open_record u c r dek

  unfoldable pub read_for_inject :
      Option FcpError → ConsumedCapability → VaultTransactions → FcpResult (VaultPayload C)
  read_for_inject fault token t = do
    require_authorization t.group_id token inject
    read_payload fault t.vault
