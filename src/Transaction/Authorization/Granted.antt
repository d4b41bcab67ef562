-- ===== src/Transaction/Authorization/Granted.antt =====
-- What an authorization has granted, what it lets its caller read, and what a late answer leaves.
use fursoy_vault.Prelude.{
  Bytes, ℕ, ◌+◌, ◌≤◌, ◌<◌, none, some, ◌≡◌, ◌≢◌, inl, inr, refl, sym, ap, ◌∙◌,
}
use mathlib.Core.Path.{subst}
use fursoy_vault.Error.{FcpError, FcpResult, FcpResult-cases, ok, err}
use fursoy_vault.Lease.Capability.{inject, CapabilityPayload, SignedCapability}
use fursoy_vault.Lease.Ledger.{
  ConsumedCapability, CapabilityLedger, LedgerHost, LedgerJson, reserve, cancel_pending,
  verify_and_consume, consumed,
}
use fursoy_vault.Lease.Ledger.Keeps.{reserve-ok, verify_and_consume_durable}
use fursoy_vault.Lease.Ledger.Grants.{verify_and_consume_granted, reserve_granted}
use fursoy_vault.Transaction.Authorization.{
  VaultTransactions, Authorizing, capability_lifetime_ms, cancelled, consume_signed, sign_reserved,
  authorize_ledger, authorize_inject,
}

-- What stands behind a token: the payload that was reserved and that the user signed, both readings
-- of the clock, and the ledger in memory and in its file.
pub record Granted (j : LedgerJson) (a : Authorizing) (h : LedgerHost) (token : ConsumedCapability)
    (h' : LedgerHost) : Type 0 where
  pub p : CapabilityPayload
  pub signed : SignedCapability
  pub now : ℕ
  pub later : ℕ
  pub waiting : LedgerHost
  pub reserves : reserve j a.drawn inject now capability_lifetime_ms h ≡ (ok p, waiting)
  pub issued : p.monotonic_sequence ≡ h.ledger.last_issued_sequence + 1
  pub pending : waiting.ledger.pending ≡ some p
  pub asked_at : a.now ≡ ok now
  pub answered_at : a.now_signed ≡ ok later
  pub in_time : later ≤ now + capability_lifetime_ms
  pub signs : a.sign p ≡ ok signed
  pub same : signed.payload ≡ p
  pub accepted : a.verify_signature signed ≡ ok tt
  pub group : token.account_group_id ≡ h.ledger.account_group_id
  pub operation : token.operation ≡ inject
  pub same_sequence : token.monotonic_sequence ≡ p.monotonic_sequence
  pub consumes : h'.ledger ≡ consumed p waiting.ledger
  pub fresh : h.ledger.last_consumed_sequence < token.monotonic_sequence
  pub used : h'.ledger.last_consumed_sequence ≡ token.monotonic_sequence
  pub closed : h'.ledger.pending ≡ none
  pub stored : (b : Bytes) × (h'.file.target ≡ some b) × (j.decode b ≡ ok h'.ledger)

module _ (j : LedgerJson) where
  not_cancelled :
      (e : FcpError) (r : FcpResult (Unit {0}) × LedgerHost) (token : ConsumedCapability)
      (h' : LedgerHost)
      → cancelled j e r ≢ (ok token, h')
  not_cancelled e (ok _, h) token h' t = cc t
  not_cancelled e (err f, h) token h' t = cc t

  consume_signed-Granted :
      (a : Authorizing) (h h₁ h' : LedgerHost) (p : CapabilityPayload) (now : ℕ)
      (r : FcpResult SignedCapability) (token : ConsumedCapability)
      → a.now ≡ ok now
      → reserve j a.drawn inject now capability_lifetime_ms h ≡ (ok p, h₁)
      → a.sign p ≡ r
      → consume_signed j a r h₁ ≡ (ok token, h')
      → Granted j a h token h'
  unfolding consume_signed
  consume_signed-Granted a h h₁ h' p now (err e) token n q s t =
      absurd (not_cancelled e (cancel_pending j h₁) token h' t)
  consume_signed-Granted a h h₁ h' p now (ok signed) token n q s t =
      elim (FcpResult-cases a.now_signed) [
        | inr (e, f) ↦ absurd (cc (rw (f, consume_signed) at t))
        | inl (later, f) ↦ consumes later f (rw (f, consume_signed) at t)
      ]
    where
      consumes :
          (later : ℕ)
          → a.now_signed ≡ ok later
          → verify_and_consume j a.verify_signature signed inject later h₁ ≡ (ok token, h')
          → Granted j a h token h'
      consumes later f t =
          let (l, x) = reserve_granted j a.drawn inject now capability_lifetime_ms h h₁ p q in
          let (v, pending, above, used, l', stored) =
            verify_and_consume_durable j a.verify_signature signed inject later h₁ h' token t in
          let (g, o, i) =
            verify_and_consume_granted j a.verify_signature signed inject later h₁ h' token t in
          let issued : some p ≡ some signed.payload =
            sym (ap (λ (z : CapabilityLedger). z.pending) l) ∙ pending in
          let same : p ≡ signed.payload = cc issued in
          record {
            p = p;
            signed = signed;
            now = now;
            later = later;
            waiting = h₁;
            reserves = q;
            issued = (reserve-ok j a.drawn inject now capability_lifetime_ms h h₁ p q).0;
            pending = ap (λ (z : CapabilityLedger). z.pending) l;
            asked_at = n;
            answered_at = f;
            in_time =
                subst (λ (m : ℕ). later ≤ m)
                  (sym (ap (λ (z : CapabilityPayload). z.expiry_unix_ms) same) ∙ x) i;
            signs = s;
            same = sym same;
            accepted = v;
            group = g ∙ ap (λ (z : CapabilityLedger). z.account_group_id) l;
            operation = o;
            same_sequence =
                used
                ∙ ap (λ (z : CapabilityLedger). z.last_consumed_sequence) l'
                ∙ ap (λ (z : CapabilityPayload). z.monotonic_sequence) (sym same);
            consumes = l' ∙ ap (λ (z : CapabilityPayload). consumed z h₁.ledger) (sym same);
            fresh =
                subst (λ (m : ℕ). m < token.monotonic_sequence)
                  (ap (λ (z : CapabilityLedger). z.last_consumed_sequence) l) above;
            used = sym used;
            closed = ap (λ (z : CapabilityLedger). z.pending) l';
            stored = stored;
          }

  authorize_ledger-Granted :
      (a : Authorizing) (h h' : LedgerHost) (token : ConsumedCapability)
      → authorize_ledger j a h ≡ (ok token, h')
      → Granted j a h token h'
  unfolding authorize_ledger
  authorize_ledger-Granted a h h' token t = elim (FcpResult-cases a.now) [
    | inr (e, f) ↦ absurd (cc (rw (f, authorize_ledger) at t))
    | inl (now, f) ↦
        reserves now f (reserve j a.drawn inject now capability_lifetime_ms h) refl
          (rw (f, authorize_ledger) at t)
  ]
    where
      reserves :
          (now : ℕ)
          → a.now ≡ ok now
          → (r : FcpResult CapabilityPayload × LedgerHost)
          → reserve j a.drawn inject now capability_lifetime_ms h ≡ r
          → sign_reserved j a r ≡ (ok token, h')
          → Granted j a h token h'
      reserves now f (err e, h₁) q t = absurd (cc t)
      reserves now f (ok p, h₁) q t =
          consume_signed-Granted a h h₁ h' p now (a.sign p) token f q refl t

  -- An authorization that returns a token: a payload was reserved under the next sequence and was
  -- pending, the user signed exactly that payload, the platform accepts the signature, and the answer
  -- came within the lifetime of 60 seconds. The token carries the sequence of that payload, which is
  -- above every one consumed before, and is for the group of the ledger and for an injection. The
  -- ledger that has consumed the payload, with nothing pending, is in memory and in the file.
  pub authorize_inject-Granted :
      (a : Authorizing) (t t' : VaultTransactions) (token : ConsumedCapability)
      → authorize_inject j a t ≡ (ok token, t')
      → Granted j a t.host token t'.host
  unfolding authorize_inject
  authorize_inject-Granted a t t' token e =
      authorize_ledger-Granted a t.host t'.host token
        (ap (λ (z : FcpResult ConsumedCapability × VaultTransactions). (z.0, z.1.host)) e)
