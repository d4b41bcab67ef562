-- ===== src/Lease/Ledger/Grants.antt =====
-- What a reservation and a consumption that return have granted.
use fursoy_vault.Prelude.{
  Bytes, Uuid, is_none, checked_suc, ℕ, ◌+◌, ◌≤◌, some, ◌≡◌, inl, inr, arith, sym, ap, ◌∙◌, ◌==◌,
  ltb, eqb, eqb→eq, not, Bool-cases, Option-cases,
}
use fursoy_vault.Error.{FcpResult, FcpResult-cases, ok, ◌>>◌, >>=-eq-ok, refuse_if}
use fursoy_vault.Lease.Capability.{
  CapabilityOperation, CapabilityOperation-discrete, CapabilityPayload, SignedCapability,
  validate_shape, new_payload,
}
use fursoy_vault.Lease.Ledger.{
  ConsumedCapability, CapabilityLedger, LedgerHost, LedgerJson, check_consume, consumed, reserved,
  persist_ledger, reserve, verify_and_consume,
}
use fursoy_vault.Lease.Ledger.Keeps.{check_consume-ok, persist_ledger-ok, refused_not}

check_consume_bound :
    (p : CapabilityPayload) (operation : CapabilityOperation) (now : ℕ) (l : CapabilityLedger)
    → check_consume p operation now l ≡ ok tt
    → (p.account_group_id ≡ l.account_group_id)
      × (p.operation ≡ operation)
      × (now ≤ p.expiry_unix_ms)
unfolding check_consume
check_consume_bound p operation now l h =
    let (_, g, h) = >>=-eq-ok (refuse_if (not (p.account_group_id == l.account_group_id)) _) _ h in
    let (_, o, h) =
      >>=-eq-ok (refuse_if (not (eqb CapabilityOperation-discrete p.operation operation)) _) _ h in
    let (_, e, h) = >>=-eq-ok (refuse_if (ltb p.expiry_unix_ms now) _) _ h in
    (
      ground (arith, refused_not _ _ _ g),
      elim (Bool-cases (eqb CapabilityOperation-discrete p.operation operation)) [
        | inl t ↦ eqb→eq CapabilityOperation-discrete p.operation operation t
        | inr t ↦ absurd (cc (rw t at o))
      ],
      ground (arith, refused_not _ _ _ e),
    )

-- What passes all checks of a consumption.
pub checks_granted :
    (verify_signature : SignedCapability → FcpResult (Unit {0})) (signed : SignedCapability)
    (operation : CapabilityOperation) (now : ℕ) (l : CapabilityLedger)
    → (validate_shape signed.payload
        >> (verify_signature signed >> check_consume signed.payload operation now l))
      ≡ ok tt
    → (l.pending ≡ some signed.payload) × (now ≤ signed.payload.expiry_unix_ms)
checks_granted verify_signature signed operation now l q =
    let (_, _, q) = >>=-eq-ok (validate_shape signed.payload) _ q in
    let (_, _, q) = >>=-eq-ok (verify_signature signed) _ q in
    let (_, p) = check_consume-ok signed.payload operation now l q in
    let (_, _, n) = check_consume_bound signed.payload operation now l q in (p, n)

new_payload-expiry :
    (drawn : FcpResult Bytes) (group : Uuid) (operation : CapabilityOperation) (now lifetime n : ℕ)
    (p : CapabilityPayload)
    → new_payload drawn group operation now lifetime n ≡ ok p
    → (p.expiry_unix_ms ≡ now + lifetime) × (p.monotonic_sequence ≡ n)
unfolding new_payload
new_payload-expiry drawn group operation now lifetime n p h = (ground arith, ground arith)

module _ (j : LedgerJson) where
  -- A consumption that returns is for the group of the ledger and the operation that was expected,
  -- and its capability has not expired.
  pub verify_and_consume_granted :
      (verify_signature : SignedCapability → FcpResult (Unit {0})) (signed : SignedCapability)
      (operation : CapabilityOperation) (now : ℕ) (h h' : LedgerHost) (token : ConsumedCapability)
      → verify_and_consume j verify_signature signed operation now h ≡ (ok token, h')
      → (token.account_group_id ≡ h.ledger.account_group_id)
        × (token.operation ≡ operation)
        × (now ≤ signed.payload.expiry_unix_ms)
  unfolding verify_and_consume
  verify_and_consume_granted verify_signature signed operation now h h' token t =
      elim (FcpResult-cases (
        validate_shape signed.payload
        >> (verify_signature signed >> check_consume signed.payload operation now h.ledger))) [
          | inr (e, q) ↦ absurd (cc (rw (q, verify_and_consume) at t))
          | inl (_, q) ↦
              let (_, _, q') = >>=-eq-ok (validate_shape signed.payload) _ q in
              let (_, _, q'') = >>=-eq-ok (verify_signature signed) _ q' in
              let (g, o, n) = check_consume_bound signed.payload operation now h.ledger q'' in
              let (a, _, _) =
                persist_ledger-ok j _ token (consumed signed.payload h.ledger) h h'
                  (rw (q, verify_and_consume) at t) in
              (
                sym (ap (λ (z : ConsumedCapability). z.account_group_id) a) ∙ g,
                sym (ap (λ (z : ConsumedCapability). z.operation) a) ∙ o,
                n,
              )
        ]

  -- A reservation that returns is the pending capability, and expires after its lifetime.
  pub reserve_granted :
      (drawn : FcpResult Bytes) (operation : CapabilityOperation) (now lifetime : ℕ)
      (h h' : LedgerHost) (p : CapabilityPayload)
      → reserve j drawn operation now lifetime h ≡ (ok p, h')
      → (h'.ledger ≡ reserved p p.monotonic_sequence h.ledger) × (p.expiry_unix_ms ≡ now + lifetime)
  unfolding reserve
  reserve_granted drawn operation now lifetime h h' p r =
      elim (Bool-cases (not (is_none h.ledger.pending))) [
        | inl t ↦ absurd (cc (rw (t, reserve) at r))
        | inr t ↦ elim (Option-cases (checked_suc h.ledger.last_issued_sequence)) [
          | inl e ↦ absurd (cc (rw (t, reserve, e) at r))
          | inr (n, e) ↦
              elim (FcpResult-cases
                (new_payload drawn h.ledger.account_group_id operation now lifetime n)) [
                  | inr (f, q) ↦ absurd (cc (rw (t, reserve, e, q) at r))
                  | inl (p', q) ↦
                      granted n p' (new_payload-expiry drawn _ operation now lifetime n p' q)
                        (rw (t, reserve, e, q) at r)
                ]
        ]
      ]
    where
      granted :
          (n : ℕ) (p' : CapabilityPayload)
          → (p'.expiry_unix_ms ≡ now + lifetime) × (p'.monotonic_sequence ≡ n)
          → persist_ledger j p' (reserved p' n h.ledger) h ≡ (ok p, h')
          → (h'.ledger ≡ reserved p p.monotonic_sequence h.ledger)
            × (p.expiry_unix_ms ≡ now + lifetime)
      granted n p' (x, s) q =
          let (same, l, _) = persist_ledger-ok j p' p (reserved p' n h.ledger) h h' q in
          let m : n ≡ p.monotonic_sequence =
            sym s ∙ ap (λ (z : CapabilityPayload). z.monotonic_sequence) same in
          (l ∙ cc (same, m), sym (ap (λ (z : CapabilityPayload). z.expiry_unix_ms) same) ∙ x)
