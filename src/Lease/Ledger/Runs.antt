-- ===== src/Lease/Ledger/Runs.antt =====
-- Runs of the ledger's commands: the invariant, and that no capability is consumed twice.
use fursoy_vault.Prelude.{
  Bytes, ℕ, ◌≤◌, ◌<◌, Option, none, some, List, [], ◌∷◌, ◌++◌, ◌≡◌, ◌≢◌, inl, inr, arith, ap, ◌∙◌,
  length, ltb, Bool-cases,
}
use mathlib.Core.Path.{subst}
use fursoy_vault.Error.{FcpResult, ok}
use fursoy_vault.Lease.Capability.{CapabilityOperation, CapabilityPayload, SignedCapability}
use fursoy_vault.Lease.Ledger.{
  ConsumedCapability, CapabilityLedger, LedgerHost, LedgerJson, replay_nonce_window, trim_nonces,
  reserve, cancel_pending, verify_and_consume,
}
use fursoy_vault.Lease.Ledger.Keeps.{
  Change, stays, reserves, cancels, consumes, reserve-ok, reserve-Change, cancel_pending-Change,
  verify_and_consume-Change, verify_and_consume_durable,
}

-- A reservation is fresh: it is issued, and not consumed yet.
abbrev pub IsFresh : CapabilityLedger → Option CapabilityPayload → Type 0
IsFresh l none = Unit {0}
IsFresh l (some p) =
    (l.last_consumed_sequence < p.monotonic_sequence)
    × (p.monotonic_sequence ≤ l.last_issued_sequence)

pub record IsLedger (l : CapabilityLedger) : Type 0 where
  pub consumed_issued : l.last_consumed_sequence ≤ l.last_issued_sequence
  pub window : length l.consumed_nonces ≤ replay_nonce_window
  pub fresh : IsFresh l l.pending

trim_nonces_bound : (ns : List Bytes) → length (trim_nonces ns) ≤ replay_nonce_window
unfolding trim_nonces
trim_nonces_bound [] = omega arith
trim_nonces_bound (n ∷ ns) = elim (Bool-cases (ltb replay_nonce_window (length (n ∷ ns)))) [
  | inl t ↦ rw t (trim_nonces_bound ns)
  | inr t ↦ rw t (ground arith)
]

Change-IsLedger : {l l' : CapabilityLedger} → Change l l' → IsLedger l → IsLedger l'
Change-IsLedger (stays l) v = v
Change-IsLedger (reserves l p e) v = record {
  consumed_issued = omega (arith, v.consumed_issued);
  window = v.window;
  fresh = (omega (arith, v.consumed_issued), omega arith);
}
Change-IsLedger (cancels l) v = record {
  consumed_issued = v.consumed_issued;
  window = v.window;
  fresh = tt;
}
Change-IsLedger (consumes l p s e) v =
    let f : IsFresh l (some p) = subst (IsFresh l) e v.fresh in
    record {
      consumed_issued = f.1;
      window = trim_nonces_bound (l.consumed_nonces ++ (p.nonce ∷ []));
      fresh = tt;
    }

-- The sequences only go up.
abbrev Grows : CapabilityLedger → CapabilityLedger → Type 0
Grows l l' =
    (l.last_consumed_sequence ≤ l'.last_consumed_sequence)
    × (l.last_issued_sequence ≤ l'.last_issued_sequence)

Change-Grows : {l l' : CapabilityLedger} → Change l l' → Grows l l'
Change-Grows (stays l) = (omega arith, omega arith)
Change-Grows (reserves l p e) = (omega arith, omega arith)
Change-Grows (cancels l) = (omega arith, omega arith)
Change-Grows (consumes l p s e) = (omega arith, omega arith)

-- The commands of a ledger, with what the world answers to each.
pub data Command : Type 0 where
  reserving : FcpResult Bytes → CapabilityOperation → ℕ → ℕ → Command
  cancelling : Command
  consuming :
      (SignedCapability → FcpResult (Unit {0}))
      → SignedCapability
      → CapabilityOperation
      → ℕ
      → Command

abbrev pub after : LedgerJson → Command → LedgerHost → LedgerHost
after j (reserving drawn operation now lifetime) h = (reserve j drawn operation now lifetime h).1
after j cancelling h = (cancel_pending j h).1
after j (consuming verify signed operation now) h =
    (verify_and_consume j verify signed operation now h).1

unfoldable pub run : LedgerJson → List Command → LedgerHost → LedgerHost
run j [] h = h
run j (c ∷ cs) h = run j cs (after j c h)

module _ (j : LedgerJson) where
  after-Change : (c : Command) (h : LedgerHost) → Change h.ledger (after j c h).ledger
  after-Change (reserving drawn operation now lifetime) h =
      reserve-Change j drawn operation now lifetime h
  after-Change cancelling h = cancel_pending-Change j h
  after-Change (consuming verify signed operation now) h =
      verify_and_consume-Change j verify signed operation now h

  -- Every run keeps the invariant: a consumed sequence was issued, at most 128 nonces are kept, and
  -- a pending capability is issued and above the last one consumed.
  pub run-IsLedger :
      (cs : List Command) (h : LedgerHost) → IsLedger h.ledger → IsLedger (run j cs h).ledger
  unfolding run
  run-IsLedger [] h v = v
  run-IsLedger (c ∷ cs) h v = run-IsLedger cs (after j c h) (Change-IsLedger (after-Change c h) v)

  run-Grows : (cs : List Command) (h : LedgerHost) → Grows h.ledger (run j cs h).ledger
  unfolding run
  run-Grows [] h = (omega arith, omega arith)
  run-Grows (c ∷ cs) h =
      let (a, b) = Change-Grows (after-Change c h) in
      let (a', b') = run-Grows cs (after j c h) in (omega arith, omega arith)

  -- No replay: after a capability was consumed and any commands have run, each capability that is
  -- consumed has a larger sequence, so the same one is never accepted again.
  pub consumed_once :
      (verify verify' : SignedCapability → FcpResult (Unit {0})) (signed signed' : SignedCapability)
      (operation operation' : CapabilityOperation) (now now' : ℕ) (h h' h'' : LedgerHost)
      (token token' : ConsumedCapability) (cs : List Command)
      → verify_and_consume j verify signed operation now h ≡ (ok token, h')
      → verify_and_consume j verify' signed' operation' now' (run j cs h') ≡ (ok token', h'')
      → (token.monotonic_sequence < token'.monotonic_sequence) × (signed.payload ≢ signed'.payload)
  consumed_once verify verify' signed signed' operation operation' now now' h h' h'' token token' cs
        t t' =
      let (_, _, _, e, l, _) =
        verify_and_consume_durable j verify signed operation now h h' token t in
      let (_, _, above, e', l', _) =
        verify_and_consume_durable j verify' signed' operation' now' (run j cs h') h'' token' t' in
      let (g, _) = run-Grows cs h' in
      let less : token.monotonic_sequence < token'.monotonic_sequence = omega arith in
      let s = e ∙ ap (λ (z : CapabilityLedger). z.last_consumed_sequence) l in
      let s' = e' ∙ ap (λ (z : CapabilityLedger). z.last_consumed_sequence) l' in
      (less, λ same. distinct s s' (ap (λ (z : CapabilityPayload). z.monotonic_sequence) same) less)
    where
      distinct : {a b c d : ℕ} → a ≡ c → b ≡ d → c ≡ d → a < b → ⊥
      distinct e f g l = omega arith

  -- A sequence that was issued is never issued again, not even where its reservation was cancelled.
  pub issued_once :
      (drawn drawn' : FcpResult Bytes) (operation operation' : CapabilityOperation)
      (now now' lifetime lifetime' : ℕ) (h h' h'' : LedgerHost) (p p' : CapabilityPayload)
      (cs : List Command)
      → reserve j drawn operation now lifetime h ≡ (ok p, h')
      → reserve j drawn' operation' now' lifetime' (run j cs h') ≡ (ok p', h'')
      → p.monotonic_sequence < p'.monotonic_sequence
  issued_once drawn drawn' operation operation' now now' lifetime lifetime' h h' h'' p p' cs t t' =
      let (_, e) = reserve-ok j drawn operation now lifetime h h' p t in
      let (e', _) = reserve-ok j drawn' operation' now' lifetime' (run j cs h') h'' p' t' in
      let (_, g) = run-Grows cs h' in omega arith
