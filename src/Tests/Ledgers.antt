-- ===== src/Tests/Ledgers.antt =====
-- Reservations and consumptions of a capability.
use fursoy_vault.Prelude.{
  Bytes, ℕ, zero, suc, Bytes-discrete, ℕ_discrete, ◌<◌, Option, none, some, List, [], ◌∷◌, ◌≡◌, ◌≢◌,
  refl, arith,
}
use fursoy_vault.Error.{FcpResult, ok, err, json}
use fursoy_vault.AtomicFile.{FileState}
use fursoy_vault.Lease.Capability.{CapabilityOperation, inject, CapabilityPayload, SignedCapability}
use fursoy_vault.Lease.Ledger.{
  ConsumedCapability, CapabilityLedger, LedgerHost, LedgerJson, reserve, verify_and_consume,
}
use fursoy_vault.Lease.Ledger.Keeps.{verify_and_consume_durable}
use fursoy_vault.Lease.Ledger.Runs.{
  IsLedger, Command, reserving, cancelling, consuming, run, run-IsLedger, consumed_once,
  issued_once,
}
use fursoy_vault.Tests.Fixtures.{group, no_file, file_with}

abbrev nonce : ℕ → Bytes
nonce n = n ∷ []

abbrev payload_at : ℕ → CapabilityPayload
payload_at n = record {
  account_group_id = group;
  operation = inject;
  expiry_unix_ms = 150;
  monotonic_sequence = n;
  nonce = nonce n;
}

abbrev ledger_at : ℕ → ℕ → List Bytes → Option CapabilityPayload → CapabilityLedger
ledger_at issued consumed nonces pending = record {
  account_group_id = group;
  last_issued_sequence = issued;
  last_consumed_sequence = consumed;
  consumed_nonces = nonces;
  pending = pending;
}

abbrev pending_code : Option CapabilityPayload → Bytes
pending_code none = []
pending_code (some p) = p.monotonic_sequence ∷ []

abbrev nonce_codes : List Bytes → Bytes
nonce_codes [] = []
nonce_codes (n ∷ ns) = 9 ∷ nonce_codes ns

abbrev pending_of : Bytes → Option CapabilityPayload
pending_of [] = none
pending_of (n ∷ _) = some (payload_at n)

-- The ledgers of this file as bytes: both sequences, and the pending sequence or nothing.
abbrev decode_ledger : Bytes → FcpResult CapabilityLedger
decode_ledger [] = err json
decode_ledger (issued ∷ []) = err json
decode_ledger (issued ∷ zero ∷ pending) = ok (ledger_at issued 0 [] (pending_of pending))
decode_ledger (issued ∷ suc zero ∷ pending) =
    ok (ledger_at issued 1 (nonce 1 ∷ []) (pending_of pending))
decode_ledger (issued ∷ suc (suc n) ∷ pending) =
    ok (ledger_at issued 2 (nonce 1 ∷ nonce 2 ∷ []) (pending_of pending))

abbrev ledger_json : LedgerJson
ledger_json = record {
  encode = λ l. ok (l.last_issued_sequence ∷ l.last_consumed_sequence ∷ pending_code l.pending);
  decode = decode_ledger;
}

abbrev host_at : FileState → CapabilityLedger → LedgerHost
host_at file l = record { ledger = l; file = file; faults = [] }

abbrev signed_at : ℕ → SignedCapability
signed_at n = record { payload = payload_at n; signature = 1 ∷ []; proof_context = [] }

abbrev accepts : SignedCapability → FcpResult (Unit {0})
accepts signed = ok tt

abbrev token_at : ℕ → ConsumedCapability
token_at n = record { account_group_id = group; operation = inject; monotonic_sequence = n }

abbrev fresh_host : LedgerHost
fresh_host = host_at no_file (ledger_at 0 0 [] none)

abbrev pending_host : LedgerHost
pending_host = host_at (file_with (1 ∷ 0 ∷ 1 ∷ [])) (ledger_at 1 0 [] (some (payload_at 1)))

abbrev consumed_host : LedgerHost
consumed_host = host_at (file_with (1 ∷ 1 ∷ [])) (ledger_at 1 1 (nonce 1 ∷ []) none)

abbrev last_host : LedgerHost
last_host = host_at (file_with (2 ∷ 2 ∷ [])) (ledger_at 2 2 (nonce 1 ∷ nonce 2 ∷ []) none)

first_consumption :
    verify_and_consume ledger_json accepts (signed_at 1) inject 100 pending_host
    ≡ (ok (token_at 1), consumed_host)
unfolding verify_and_consume fursoy_vault.Lease.Capability.validate_shape
    fursoy_vault.Lease.Ledger.check_consume
    fursoy_vault.Lease.Capability.CapabilityOperation-discrete
    fursoy_vault.Lease.Capability.CapabilityPayload-discrete Bytes-discrete ℕ_discrete
    fursoy_vault.Lease.Ledger.persist_ledger fursoy_vault.AtomicFile.write_verified
    fursoy_vault.AtomicFile.write_verified_durable fursoy_vault.Lease.Ledger.verify_ledger
    fursoy_vault.Lease.Ledger.CapabilityLedger-discrete fursoy_vault.Lease.Ledger.trim_nonces run
    reserve fursoy_vault.Lease.Ledger.cancel_pending fursoy_vault.Lease.Capability.new_payload
first_consumption = refl

abbrev reserve_again : List Command
reserve_again = reserving (ok (nonce 2)) inject 100 50 ∷ []

second_consumption :
    verify_and_consume ledger_json accepts
      (signed_at 2)
      inject
      100
      (run ledger_json reserve_again consumed_host)
    ≡ (ok (token_at 2), last_host)
unfolding verify_and_consume fursoy_vault.Lease.Capability.validate_shape
    fursoy_vault.Lease.Ledger.check_consume
    fursoy_vault.Lease.Capability.CapabilityOperation-discrete
    fursoy_vault.Lease.Capability.CapabilityPayload-discrete Bytes-discrete ℕ_discrete
    fursoy_vault.Lease.Ledger.persist_ledger fursoy_vault.AtomicFile.write_verified
    fursoy_vault.AtomicFile.write_verified_durable fursoy_vault.Lease.Ledger.verify_ledger
    fursoy_vault.Lease.Ledger.CapabilityLedger-discrete fursoy_vault.Lease.Ledger.trim_nonces run
    reserve fursoy_vault.Lease.Ledger.cancel_pending fursoy_vault.Lease.Capability.new_payload
second_consumption = refl

verify_and_consume_durable_example :
    (accepts (signed_at 1) ≡ ok tt)
    × (pending_host.ledger.pending ≡ some (payload_at 1))
    × (0 < 1)
    × ((token_at 1).monotonic_sequence ≡ 1)
    × (consumed_host.ledger ≡ consumed_host.ledger)
    × ((b : Bytes) × (consumed_host.file.target ≡ some b)
        × (decode_ledger b ≡ ok consumed_host.ledger))
unfolding fursoy_vault.Lease.Ledger.trim_nonces
verify_and_consume_durable_example =
    verify_and_consume_durable ledger_json accepts (signed_at 1) inject 100 pending_host
      consumed_host (token_at 1) first_consumption

consumed_once_example : (1 < 2) × (payload_at 1 ≢ payload_at 2)
consumed_once_example =
    consumed_once ledger_json accepts accepts (signed_at 1) (signed_at 2) inject inject 100 100
      pending_host consumed_host last_host (token_at 1) (token_at 2) reserve_again first_consumption
      second_consumption

fresh-IsLedger : IsLedger fresh_host.ledger
fresh-IsLedger = record { consumed_issued = omega arith; window = omega arith; fresh = tt }

abbrev commands : List Command
commands = reserving (ok (nonce 1)) inject 100 50 ∷ consuming accepts (signed_at 1) inject 100 ∷ []

run-IsLedger_example : IsLedger (run ledger_json commands fresh_host).ledger
run-IsLedger_example = run-IsLedger ledger_json commands fresh_host fresh-IsLedger

first_reservation :
    reserve ledger_json (ok (nonce 1)) inject 100 50 fresh_host ≡ (ok (payload_at 1), pending_host)
unfolding verify_and_consume fursoy_vault.Lease.Capability.validate_shape
    fursoy_vault.Lease.Ledger.check_consume
    fursoy_vault.Lease.Capability.CapabilityOperation-discrete
    fursoy_vault.Lease.Capability.CapabilityPayload-discrete Bytes-discrete ℕ_discrete
    fursoy_vault.Lease.Ledger.persist_ledger fursoy_vault.AtomicFile.write_verified
    fursoy_vault.AtomicFile.write_verified_durable fursoy_vault.Lease.Ledger.verify_ledger
    fursoy_vault.Lease.Ledger.CapabilityLedger-discrete fursoy_vault.Lease.Ledger.trim_nonces run
    reserve fursoy_vault.Lease.Ledger.cancel_pending fursoy_vault.Lease.Capability.new_payload
first_reservation = refl

abbrev second_host : LedgerHost
second_host = host_at (file_with (2 ∷ 0 ∷ 2 ∷ [])) (ledger_at 2 0 [] (some (payload_at 2)))

second_reservation :
    reserve ledger_json
      (ok (nonce 2))
      inject
      100
      50
      (run ledger_json (cancelling ∷ []) pending_host)
    ≡ (ok (payload_at 2), second_host)
unfolding verify_and_consume fursoy_vault.Lease.Capability.validate_shape
    fursoy_vault.Lease.Ledger.check_consume
    fursoy_vault.Lease.Capability.CapabilityOperation-discrete
    fursoy_vault.Lease.Capability.CapabilityPayload-discrete Bytes-discrete ℕ_discrete
    fursoy_vault.Lease.Ledger.persist_ledger fursoy_vault.AtomicFile.write_verified
    fursoy_vault.AtomicFile.write_verified_durable fursoy_vault.Lease.Ledger.verify_ledger
    fursoy_vault.Lease.Ledger.CapabilityLedger-discrete fursoy_vault.Lease.Ledger.trim_nonces run
    reserve fursoy_vault.Lease.Ledger.cancel_pending fursoy_vault.Lease.Capability.new_payload
second_reservation = refl

issued_once_example : 1 < 2
issued_once_example =
    issued_once ledger_json (ok (nonce 1)) (ok (nonce 2)) inject inject 100 100 50 50 fresh_host
      pending_host second_host (payload_at 1) (payload_at 2) (cancelling ∷ []) first_reservation
      second_reservation
