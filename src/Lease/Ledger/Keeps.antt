-- ===== src/Lease/Ledger/Keeps.antt =====
-- What each step does to a ledger, and what a consumption that returns has left on disk.
use fursoy_vault.Prelude.{
  Bytes, bytes_eq, Uuid, is_none, checked_suc, ℕ, ◌+◌, ◌-◌, ◌<◌, Bool, true, false, Option, none,
  some, ◌≡◌, ◌⊎◌, inl, inr, refl, arith, sym, ap, ◌∙◌, ◌==◌, leb, ltb, eqb, eqb→eq, any, not,
  Bool-cases, Option-cases,
}
use mathlib.Core.Path.{subst}
use fursoy_vault.Error.{
  FcpError, FcpResult, FcpResult-cases, ok, err, ◌>>◌, >>=-eq-ok, refuse_if, ok_or,
}
use fursoy_vault.AtomicFile.{FileState, next_faults, write_verified, stored_bytes}
use fursoy_vault.AtomicFile.Outcomes.{write_verified_result}
use fursoy_vault.Lease.Capability.{
  CapabilityOperation, CapabilityOperation-discrete, CapabilityPayload, CapabilityPayload-discrete,
  SignedCapability, capability_max_lifetime_ms, validate_shape, new_payload,
}
use fursoy_vault.Lease.Ledger.{
  ConsumedCapability, CapabilityLedger, CapabilityLedger-discrete, LedgerHost, LedgerJson,
  check_consume, consumed, reserved, settle, verify_ledger, persist_ledger, reserve, cancel_pending,
  verify_and_consume,
}

-- One change of a ledger.
pub data Change : CapabilityLedger → CapabilityLedger → Type 0 where
  stays : (l : CapabilityLedger) → Change l l
  reserves :
      (l : CapabilityLedger) (p : CapabilityPayload)
      → p.monotonic_sequence ≡ l.last_issued_sequence + 1
      → Change l (reserved p p.monotonic_sequence l)
  cancels : (l : CapabilityLedger) → Change l (record l { pending = none })
  consumes :
      (l : CapabilityLedger) (p : CapabilityPayload)
      → l.last_consumed_sequence < p.monotonic_sequence
      → l.pending ≡ some p
      → Change l (consumed p l)

pub refused_not :
    (test : Bool) (e : FcpError) (a : Unit {0}) → refuse_if test e ≡ ok a → test ≡ false
refused_not true e a h = absurd (cc h)
refused_not false e a h = refl

present :
    (m : Option CapabilityPayload) (e : FcpError) (q : CapabilityPayload)
    → ok_or m e ≡ ok q
    → m ≡ some q
present none e q h = absurd (cc h)
present (some r) e q h = cc

matches :
    (q p : CapabilityPayload) (e : FcpError)
    → refuse_if (not (eqb CapabilityPayload-discrete q p)) e ≡ ok tt
    → q ≡ p
matches q p e h = elim (Bool-cases (eqb CapabilityPayload-discrete q p)) [
  | inl t ↦ eqb→eq CapabilityPayload-discrete q p t
  | inr t ↦ absurd (cc (rw t at h))
]

-- The checks that passed.
pub check_consume-ok :
    (p : CapabilityPayload) (operation : CapabilityOperation) (now : ℕ) (l : CapabilityLedger)
    → check_consume p operation now l ≡ ok tt
    → (l.last_consumed_sequence < p.monotonic_sequence) × (l.pending ≡ some p)
unfolding check_consume
check_consume-ok p operation now l h =
    let (_, _, h) = >>=-eq-ok (refuse_if (not (p.account_group_id == l.account_group_id)) _) _ h in
    let (_, _, h) =
      >>=-eq-ok (refuse_if (not (eqb CapabilityOperation-discrete p.operation operation)) _) _ h in
    let (_, _, h) = >>=-eq-ok (refuse_if (ltb p.expiry_unix_ms now) _) _ h in
    let (_, _, h) =
      >>=-eq-ok (refuse_if (ltb capability_max_lifetime_ms (p.expiry_unix_ms - now)) _) _ h in
    let (_, s, h) =
      >>=-eq-ok (refuse_if (leb p.monotonic_sequence l.last_consumed_sequence) _) _ h in
    let (_, _, h) = >>=-eq-ok (refuse_if (any (bytes_eq p.nonce) l.consumed_nonces) _) _ h in
    let (q, t, h) = >>=-eq-ok (ok_or l.pending _) _ h in
    (ground (arith, refused_not _ _ _ s), present l.pending _ q t ∙ ap some (matches q p _ h))

-- What a call of `new_payload` that returns has put into the payload.
new_payload-sequence :
    (drawn : FcpResult Bytes) (group : Uuid) (operation : CapabilityOperation) (now lifetime n : ℕ)
    (p : CapabilityPayload)
    → new_payload drawn group operation now lifetime n ≡ ok p
    → p.monotonic_sequence ≡ n
unfolding new_payload
new_payload-sequence drawn group operation now lifetime n p h = ground arith

module _ (j : LedgerJson) where
  settle_ledger {ℓ κ} :
      {A : Type ℓ} (P : CapabilityLedger → Type κ) (a : A) (next : CapabilityLedger)
      (h : LedgerHost) (r : FcpResult (Unit {0}) × FileState)
      → P next
      → P h.ledger
      → P (settle a next h r).1.ledger
  settle_ledger P a next h (ok _, file) p q = p
  settle_ledger P a next h (err e, file) p q = q

  -- After a persist the ledger in memory is the new one or the old one.
  persist_ledger-either {ℓ κ} :
      {A : Type ℓ} (P : CapabilityLedger → Type κ) (a : A) (next : CapabilityLedger)
      (h : LedgerHost)
      → P next
      → P h.ledger
      → P (persist_ledger j a next h).1.ledger
  unfolding persist_ledger
  persist_ledger-either P a next h p q = elim (FcpResult-cases (j.encode next)) [
    | inr (e, t) ↦ rw (t, persist_ledger) q
    | inl (b, t) ↦ rw (t, persist_ledger) (settle_ledger P a next h _ p q)
  ]

  decoded :
      (next : CapabilityLedger) (b : Bytes) → verify_ledger j next b ≡ ok tt → j.decode b ≡ ok next
  unfolding verify_ledger
  decoded next b v =
      let (l, d, m) =
        >>=-eq-ok (j.decode b)
          (λ verified. refuse_if (not (eqb CapabilityLedger-discrete verified next)) _) v in
      elim (Bool-cases (eqb CapabilityLedger-discrete l next)) [
        | inl t ↦ d ∙ ap ok (eqb→eq CapabilityLedger-discrete l next t)
        | inr t ↦ absurd (cc (rw t at m))
      ]

  -- A persist that returns has put the new ledger into memory and into the file.
  pub persist_ledger-ok {ℓ} :
      {A : Type ℓ} (a a' : A) (next : CapabilityLedger) (h h' : LedgerHost)
      → persist_ledger j a next h ≡ (ok a', h')
      → (a ≡ a')
        × (h'.ledger ≡ next)
        × ((b : Bytes) × (h'.file.target ≡ some b) × (j.decode b ≡ ok next))
  unfolding persist_ledger
  persist_ledger-ok {A = A} a a' next h h' t = elim (FcpResult-cases (j.encode next)) [
    | inr (e, q) ↦ absurd (cc (rw (q, persist_ledger) at t))
    | inl (b, q) ↦ written b (rw (q, persist_ledger) at t)
  ]
    where
      file_kept : (file : FileState) → h'.file ≡ file → h'.file.target ≡ file.target
      file_kept file e = ap (λ (z : FileState). z.target) e

      settled :
          (r : FcpResult (Unit {0}) × FileState) (c : Bytes)
          → ((r.0 ≡ ok tt) × (r.1.target ≡ some c) × (verify_ledger j next c ≡ ok tt))
            ⊎ ((e : FcpError) × (r.0 ≡ err e))
          → settle a next h r ≡ (ok a', h')
          → (a ≡ a')
            × (h'.ledger ≡ next)
            × ((b : Bytes) × (h'.file.target ≡ some b) × (j.decode b ≡ ok next))
      settled (ok _, file) c (inl (_, f, v)) t =
          (cc t, cc t, (c, file_kept file (cc t) ∙ f, decoded next c v))
      settled (ok _, file) c (inr (e, f)) t = absurd (cc f)
      settled (err e, file) c o t = absurd (cc t)

      written :
          (b : Bytes)
          → settle a next h (write_verified (next_faults h.faults) b (verify_ledger j next) h.file)
            ≡ (ok a', h')
          → (a ≡ a')
            × (h'.ledger ≡ next)
            × ((b : Bytes) × (h'.file.target ≡ some b) × (j.decode b ≡ ok next))
      written b t =
          settled (write_verified (next_faults h.faults) b (verify_ledger j next) h.file)
            (stored_bytes (next_faults h.faults) b)
            (elim (write_verified_result (next_faults h.faults) b (verify_ledger j next) h.file) [
              | inl o ↦ inl o
              | inr (e, f, _) ↦ inr (e, f)
            ])
            t

  pub reserve-Change :
      (drawn : FcpResult Bytes) (operation : CapabilityOperation) (now lifetime : ℕ)
      (h : LedgerHost)
      → Change h.ledger (reserve j drawn operation now lifetime h).1.ledger
  unfolding reserve
  reserve-Change drawn operation now lifetime h =
      elim (Bool-cases (not (is_none h.ledger.pending))) [
        | inl t ↦ rw (t, reserve) (stays h.ledger)
        | inr t ↦ elim (Option-cases (checked_suc h.ledger.last_issued_sequence)) [
          | inl e ↦ rw (t, reserve, e) (stays h.ledger)
          | inr (n, e) ↦
              elim (FcpResult-cases
                (new_payload drawn h.ledger.account_group_id operation now lifetime n)) [
                  | inr (f, q) ↦ rw (t, reserve, e, q) (stays h.ledger)
                  | inl (p, q) ↦
                      rw (t, reserve, e, q)
                        (issued n p (above n e)
                          (new_payload-sequence drawn _ operation now lifetime n p q))
                ]
        ]
      ]
    where
      above :
          (n : ℕ)
          → checked_suc h.ledger.last_issued_sequence ≡ some n
          → n ≡ h.ledger.last_issued_sequence + 1
      above n e = ground arith

      issued :
          (n : ℕ) (p : CapabilityPayload)
          → n ≡ h.ledger.last_issued_sequence + 1
          → p.monotonic_sequence ≡ n
          → Change h.ledger (persist_ledger j p (reserved p n h.ledger) h).1.ledger
      issued n p a e =
          persist_ledger-either (Change h.ledger) p (reserved p n h.ledger) h
            (subst (λ (m : ℕ). Change h.ledger (reserved p m h.ledger)) e
              (reserves h.ledger p (e ∙ a)))
            (stays h.ledger)

  pub reserve-ok :
      (drawn : FcpResult Bytes) (operation : CapabilityOperation) (now lifetime : ℕ)
      (h h' : LedgerHost) (p : CapabilityPayload)
      → reserve j drawn operation now lifetime h ≡ (ok p, h')
      → (p.monotonic_sequence ≡ h.ledger.last_issued_sequence + 1)
        × (h'.ledger.last_issued_sequence ≡ p.monotonic_sequence)
  unfolding reserve
  reserve-ok drawn operation now lifetime h h' p r =
      elim (Bool-cases (not (is_none h.ledger.pending))) [
        | inl t ↦ absurd (cc (rw (t, reserve) at r))
        | inr t ↦ elim (Option-cases (checked_suc h.ledger.last_issued_sequence)) [
          | inl e ↦ absurd (cc (rw (t, reserve, e) at r))
          | inr (n, e) ↦
              elim (FcpResult-cases
                (new_payload drawn h.ledger.account_group_id operation now lifetime n)) [
                  | inr (f, q) ↦ absurd (cc (rw (t, reserve, e, q) at r))
                  | inl (p', q) ↦
                      issued n p' e (new_payload-sequence drawn _ operation now lifetime n p' q)
                        (rw (t, reserve, e, q) at r)
                ]
        ]
      ]
    where
      issued :
          (n : ℕ) (p' : CapabilityPayload)
          → checked_suc h.ledger.last_issued_sequence ≡ some n
          → p'.monotonic_sequence ≡ n
          → persist_ledger j p' (reserved p' n h.ledger) h ≡ (ok p, h')
          → (p.monotonic_sequence ≡ h.ledger.last_issued_sequence + 1)
            × (h'.ledger.last_issued_sequence ≡ p.monotonic_sequence)
      issued n p' a e q =
          let (same, l, _) = persist_ledger-ok p' p (reserved p' n h.ledger) h h' q in
          let m = ap (λ (z : CapabilityPayload). z.monotonic_sequence) same in
          let k = ap (λ (z : CapabilityLedger). z.last_issued_sequence) l in
          (ground arith, k ∙ sym e ∙ m)

  pub cancel_pending-Change : (h : LedgerHost) → Change h.ledger (cancel_pending j h).1.ledger
  unfolding cancel_pending
  cancel_pending-Change h =
      persist_ledger-either (Change h.ledger) tt (record h.ledger { pending = none }) h
        (cancels h.ledger) (stays h.ledger)

  pub verify_and_consume-Change :
      (verify_signature : SignedCapability → FcpResult (Unit {0})) (signed : SignedCapability)
      (operation : CapabilityOperation) (now : ℕ) (h : LedgerHost)
      → Change h.ledger (verify_and_consume j verify_signature signed operation now h).1.ledger
  unfolding verify_and_consume
  verify_and_consume-Change verify_signature signed operation now h =
      elim (FcpResult-cases (
        validate_shape signed.payload
        >> (verify_signature signed >> check_consume signed.payload operation now h.ledger))) [
          | inr (e, q) ↦ rw (q, verify_and_consume) (stays h.ledger)
          | inl (_, q) ↦
              let (s, p) = checked q in
              rw (q, verify_and_consume)
                (persist_ledger-either (Change h.ledger) _ (consumed signed.payload h.ledger) h
                  (consumes h.ledger signed.payload s p) (stays h.ledger))
        ]
    where
      checked :
          (validate_shape signed.payload
              >> (verify_signature signed >> check_consume signed.payload operation now h.ledger))
            ≡ ok tt
          → (h.ledger.last_consumed_sequence < signed.payload.monotonic_sequence)
            × (h.ledger.pending ≡ some signed.payload)
      checked q =
          let (_, _, q) = >>=-eq-ok (validate_shape signed.payload) _ q in
          let (_, _, q) = >>=-eq-ok (verify_signature signed) _ q in
          check_consume-ok signed.payload operation now h.ledger q

  -- A consumption that returns used the pending capability, above every sequence consumed before,
  -- whose signature the platform accepts, and the ledger without it is in memory and in the file.
  pub verify_and_consume_durable :
      (verify_signature : SignedCapability → FcpResult (Unit {0})) (signed : SignedCapability)
      (operation : CapabilityOperation) (now : ℕ) (h h' : LedgerHost) (token : ConsumedCapability)
      → verify_and_consume j verify_signature signed operation now h ≡ (ok token, h')
      → (verify_signature signed ≡ ok tt)
        × (h.ledger.pending ≡ some signed.payload)
        × (h.ledger.last_consumed_sequence < token.monotonic_sequence)
        × (token.monotonic_sequence ≡ h'.ledger.last_consumed_sequence)
        × (h'.ledger ≡ consumed signed.payload h.ledger)
        × ((b : Bytes) × (h'.file.target ≡ some b) × (j.decode b ≡ ok h'.ledger))
  unfolding verify_and_consume
  verify_and_consume_durable verify_signature signed operation now h h' token t =
      elim (FcpResult-cases (
        validate_shape signed.payload
        >> (verify_signature signed >> check_consume signed.payload operation now h.ledger))) [
          | inr (e, q) ↦ absurd (cc (rw (q, verify_and_consume) at t))
          | inl (_, q) ↦
              let (_, _, q') = >>=-eq-ok (validate_shape signed.payload) _ q in
              let (_, v, q'') = >>=-eq-ok (verify_signature signed) _ q' in
              let (s, p) = check_consume-ok signed.payload operation now h.ledger q'' in
              let (a, l, (b, f, d)) =
                persist_ledger-ok _ token (consumed signed.payload h.ledger) h h'
                  (rw (q, verify_and_consume) at t) in
              let same : signed.payload.monotonic_sequence ≡ token.monotonic_sequence =
                ap (λ (z : ConsumedCapability). z.monotonic_sequence) a in
              (
                v,
                p,
                rw (← same) s,
                sym same ∙ ap (λ (z : CapabilityLedger). z.last_consumed_sequence) (sym l),
                l,
                (b, f, d ∙ ap ok (sym l)),
              )
        ]
