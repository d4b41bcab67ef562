-- ===== src/Transaction/Authorization/Late.antt =====
-- An authorization whose signer answers after the lifetime of the capability.
use fursoy_vault.Prelude.{
  ℕ, ◌+◌, ◌<◌, true, some, is_none, ◌≡◌, inl, inr, refl, arith, sym, ap, ◌∙◌, not,
}
use fursoy_vault.Error.{FcpError, FcpResult-cases, ok, err, ◌>>◌, capability, already_pending}
use fursoy_vault.Lease.Capability.{inject, CapabilityPayload, SignedCapability, validate_shape}
use fursoy_vault.Lease.Ledger.{
  CapabilityLedger, LedgerHost, LedgerJson, reserve, verify_and_consume, check_consume,
}
use fursoy_vault.Lease.Ledger.Grants.{checks_granted, reserve_granted}
use fursoy_vault.Transaction.Authorization.{
  VaultTransactions, Authorizing, capability_lifetime_ms, consume_signed, authorize_ledger,
  authorize_inject,
}

module _ (j : LedgerJson) where
  refused_late :
      (a : Authorizing) (h h₁ : LedgerHost) (now later : ℕ) (p : CapabilityPayload)
      (signed : SignedCapability)
      → reserve j a.drawn inject now capability_lifetime_ms h ≡ (ok p, h₁)
      → now + capability_lifetime_ms < later
      → (e : FcpError) × (verify_and_consume j a.verify_signature signed inject later h₁
          ≡ (err e, h₁))
  unfolding verify_and_consume
  refused_late a h h₁ now later p signed q late =
      elim (FcpResult-cases (
        validate_shape signed.payload
        >> (a.verify_signature signed >> check_consume signed.payload inject later h₁.ledger))) [
          | inr (e, f) ↦ (e, rw (f, verify_and_consume) refl)
          | inl (_, f) ↦
              let (l, x) = reserve_granted j a.drawn inject now capability_lifetime_ms h h₁ p q in
              let (pending, bound) =
                checks_granted a.verify_signature signed inject later h₁.ledger f in
              let issued : some p ≡ some signed.payload =
                sym (ap (λ (z : CapabilityLedger). z.pending) l) ∙ pending in
              let same : p ≡ signed.payload = cc issued in
              let expiry : signed.payload.expiry_unix_ms ≡ now + capability_lifetime_ms =
                sym (ap (λ (z : CapabilityPayload). z.expiry_unix_ms) same) ∙ x in
              absurd (omega (arith, bound, expiry, late))
        ]

  blocked :
      (a : Authorizing) (h : LedgerHost) (now : ℕ) (p : CapabilityPayload)
      → a.now ≡ ok now
      → h.ledger.pending ≡ some p
      → authorize_ledger j a h ≡ (err (capability already_pending), h)
  unfolding authorize_ledger reserve
  blocked a h now p n s =
      let waiting : not (is_none h.ledger.pending) ≡ true = rw s refl in
      rw (n, authorize_ledger, waiting, reserve) refl

  -- Where the signer answers later than 60 seconds after the reservation, the authorization fails and
  -- its reservation stays pending, so that every later authorization is refused because one is
  -- pending, whatever the clock and the platform then answer.
  pub late_answer_blocks :
      (a a' : Authorizing) (t : VaultTransactions) (h : LedgerHost) (now later again : ℕ)
      (p : CapabilityPayload) (signed : SignedCapability)
      → a.now ≡ ok now
      → reserve j a.drawn inject now capability_lifetime_ms t.host ≡ (ok p, h)
      → a.sign p ≡ ok signed
      → a.now_signed ≡ ok later
      → now + capability_lifetime_ms < later
      → a'.now ≡ ok again
      → ((e : FcpError) × (authorize_inject j a t ≡ (err e, record t { host = h })))
        × (authorize_inject j a' (record t { host = h })
            ≡ (err (capability already_pending), record t { host = h }))
  unfolding authorize_inject authorize_ledger consume_signed
  late_answer_blocks a a' t h now later again p signed n q s n' late n'' =
      let (e, f) = refused_late a t.host h now later p signed q late in
      let (l, _) = reserve_granted j a.drawn inject now capability_lifetime_ms t.host h p q in
      (
        (e, ends e f),
        rw (blocked a' h again p n'' (ap (λ (z : CapabilityLedger). z.pending) l)) refl,
      )
    where
      ends :
          (e : FcpError)
          → verify_and_consume j a.verify_signature signed inject later h ≡ (err e, h)
          → authorize_inject j a t ≡ (err e, record t { host = h })
      ends e f = rw (n, authorize_ledger, q, s, n', consume_signed, f) refl
