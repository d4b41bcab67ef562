-- ===== src/Tests/Authorizations.antt =====
-- The authorization of one use, after a reservation that an earlier process left.
use fursoy_vault.Prelude.{
  Bytes, ℕ, zero, suc, ℕ_discrete, Option, none, some, List, [], ◌∷◌, ◌≡◌, refl, arith,
}
use fursoy_vault.Error.{FcpError, FcpResult, ok, err, json, capability, already_pending}
use fursoy_vault.AtomicFile.{FileState}
use fursoy_vault.Lease.Capability.{inject, CapabilityPayload, SignedCapability}
use fursoy_vault.Lease.Ledger.{
  ConsumedCapability, CapabilityLedger, LedgerHost, LedgerJson, reserve,
}
use fursoy_vault.Vault.Store.{VaultFiles}
use fursoy_vault.Transaction.Authorization.{
  VaultTransactions, Authorizing, open_transactions, authorize_inject, read_for_inject,
  read_payload, capability_lifetime_ms,
}
use fursoy_vault.Transaction.Authorization.Granted.{Granted, authorize_inject-Granted}
use fursoy_vault.Transaction.Authorization.Sessions.{IsOpen, authorized_read}
use fursoy_vault.Transaction.Authorization.Late.{late_answer_blocks}
use fursoy_vault.Tests.Fixtures.{group, uuid_bytes, file_with}
use fursoy_vault.Tests.Vaults.{vault_crates, platform}

abbrev payload_at : ℕ → CapabilityPayload
payload_at n = record {
  account_group_id = group;
  operation = inject;
  expiry_unix_ms = 60100;
  monotonic_sequence = n;
  nonce = n ∷ [];
}

abbrev nonces_to : ℕ → List Bytes
nonces_to zero = []
nonces_to (suc n) = (suc n ∷ []) ∷ []

abbrev ledger_at : ℕ → ℕ → Option CapabilityPayload → CapabilityLedger
ledger_at issued consumed pending = record {
  account_group_id = group;
  last_issued_sequence = issued;
  last_consumed_sequence = consumed;
  consumed_nonces = nonces_to consumed;
  pending = pending;
}

abbrev pending_code : Option CapabilityPayload → Bytes
pending_code none = []
pending_code (some p) = 1 ∷ []

abbrev decode_ledger : Bytes → FcpResult CapabilityLedger
decode_ledger [] = err json
decode_ledger (issued ∷ []) = err json
decode_ledger (issued ∷ consumed ∷ []) = ok (ledger_at issued consumed none)
decode_ledger (issued ∷ consumed ∷ _ ∷ _) =
    ok (ledger_at issued consumed (some (payload_at issued)))

abbrev ledger_json : LedgerJson
ledger_json = record {
  encode = λ l. ok (l.last_issued_sequence ∷ l.last_consumed_sequence ∷ pending_code l.pending);
  decode = decode_ledger;
}

abbrev answers_at : ℕ → Authorizing
answers_at later = record {
  now = ok 100;
  drawn = ok (2 ∷ []);
  sign = λ p. ok (record { payload = p; signature = 1 ∷ []; proof_context = [] });
  now_signed = ok later;
  verify_signature = λ signed. ok tt;
}

abbrev vault_files : VaultFiles
vault_files = record { file = file_with (5 ∷ []); staged = none }

abbrev transactions_at : Bytes → CapabilityLedger → VaultTransactions
transactions_at bytes l = record {
  group_id = group;
  vault = vault_files;
  host = record { ledger = l; file = file_with bytes; faults = [] };
}

abbrev opened : VaultTransactions
opened = transactions_at (1 ∷ 0 ∷ []) (ledger_at 1 0 none)

abbrev waiting : VaultTransactions
waiting = transactions_at (2 ∷ 0 ∷ 1 ∷ []) (ledger_at 2 0 (some (payload_at 2)))

abbrev authorized : VaultTransactions
authorized = transactions_at (2 ∷ 2 ∷ []) (ledger_at 2 2 none)

abbrev token : ConsumedCapability
token = record { account_group_id = group; operation = inject; monotonic_sequence = 2 }

opens :
    open_transactions ledger_json none group vault_files (file_with (1 ∷ 0 ∷ 1 ∷ [])) [] ≡ ok opened
unfolding open_transactions fursoy_vault.Lease.Ledger.load_or_initialize
    fursoy_vault.Lease.Ledger.load fursoy_vault.Transaction.Authorization.discard_pending
    fursoy_vault.Lease.Ledger.cancel_pending fursoy_vault.Lease.Ledger.persist_ledger
    fursoy_vault.AtomicFile.write_verified fursoy_vault.AtomicFile.write_verified_durable
    fursoy_vault.Lease.Ledger.verify_ledger fursoy_vault.Lease.Ledger.CapabilityLedger-discrete
    ℕ_discrete
opens = refl

authorizes : authorize_inject ledger_json (answers_at 200) opened ≡ (ok token, authorized)
unfolding authorize_inject fursoy_vault.Transaction.Authorization.authorize_ledger reserve
    fursoy_vault.Lease.Capability.new_payload fursoy_vault.Lease.Capability.validate_shape
    fursoy_vault.Lease.Ledger.persist_ledger fursoy_vault.AtomicFile.write_verified
    fursoy_vault.AtomicFile.write_verified_durable fursoy_vault.Lease.Ledger.verify_ledger
    fursoy_vault.Lease.Ledger.CapabilityLedger-discrete ℕ_discrete
    fursoy_vault.Transaction.Authorization.consume_signed
    fursoy_vault.Lease.Ledger.verify_and_consume fursoy_vault.Lease.Ledger.check_consume
    fursoy_vault.Lease.Capability.CapabilityOperation-discrete
    fursoy_vault.Lease.Capability.CapabilityPayload-discrete fursoy_vault.Lease.Ledger.trim_nonces
authorizes = refl

reserves :
    reserve ledger_json (ok (2 ∷ [])) inject 100 60000 opened.host
    ≡ (ok (payload_at 2), waiting.host)
unfolding reserve fursoy_vault.Lease.Capability.new_payload
    fursoy_vault.Lease.Capability.validate_shape fursoy_vault.Lease.Ledger.persist_ledger
    fursoy_vault.AtomicFile.write_verified fursoy_vault.AtomicFile.write_verified_durable
    fursoy_vault.Lease.Ledger.verify_ledger fursoy_vault.Lease.Ledger.CapabilityLedger-discrete
    ℕ_discrete
reserves = refl

authorize_inject-Granted_example :
    Granted ledger_json (answers_at 200) opened.host token authorized.host
authorize_inject-Granted_example =
    authorize_inject-Granted ledger_json (answers_at 200) opened authorized token authorizes

authorized_read_example :
    IsOpen group vault_files opened
    × (read_for_inject uuid_bytes vault_crates platform none token authorized
        ≡ read_payload uuid_bytes vault_crates platform none vault_files)
authorized_read_example =
    authorized_read uuid_bytes vault_crates platform ledger_json none none group vault_files
      (file_with (1 ∷ 0 ∷ 1 ∷ [])) [] opened authorized (answers_at 200) token opens authorizes

late_answer_blocks_example :
    ((e : FcpError) × (authorize_inject ledger_json (answers_at 70000) opened ≡ (err e, waiting)))
    × (authorize_inject ledger_json (answers_at 200) waiting
        ≡ (err (capability already_pending), waiting))
late_answer_blocks_example =
    late_answer_blocks ledger_json (answers_at 70000) (answers_at 200) opened waiting.host 100 70000
      100 (payload_at 2) (record { payload = payload_at 2; signature = 1 ∷ []; proof_context = [] })
      refl reserves refl refl (omega arith) refl
