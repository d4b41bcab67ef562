-- ===== src/Lib.antt =====
-- The native host of FURSOY Vault keeps the session cookies of an account group encrypted on disk,
-- hands them to the browser extension for one authorized use, and takes them back. This library
-- models the parts of native-host/src that decide what survives a crash and what is authorized.
--
-- The parts, and the files that model them:
-- - AtomicFile: native-host/src/atomic_file.rs. A file is replaced through a temporary sibling that
--   is written, synced, read back and renamed. The state is what a reader finds at the two paths, and
--   beside it what the medium may keep of the target after a loss of power: contents count only once
--   they are synced, a rename only once the directory is flushed. What the operating system answers
--   during one write is a `Faults` record. `classify_object` tells by digest what a path holds.
-- - Operation.Model, Operation.Journal: native-host/src/operation/model.rs and journal.rs. Each
--   command (`begin`, `issue`, `bind_snapshot`, `transition`) builds the next journal, `persist`
--   validates and writes it with AtomicFile, and only then the memory changes. A command returns
--   its result and the store, also where it fails.
-- - Operation.Recovery, Operation.Startup, Operation.Commit, Operation.Coordinator and
--   Operation.Fingerprint: recovery.rs, coordinator.rs and fingerprint.rs beside them. The commit of
--   a snapshot binds its digests in the journal, writes the vault, and settles the phase; after a
--   crash the phase is read off the vault file. Startup has the two loops over active operations.
-- - Vault.Format, Vault.Sealed, Vault.Store: native-host/src/vault/. The binary record, its
--   encryption (with crypto/aead.rs and payload.rs) and the file of one group with its deletion in
--   two steps.
-- - Transaction: native-host/src/transaction.rs. What a vault write is prepared from and committed, and
--   in Transaction.Authorization the authorization of one use: a reservation in the ledger, the answer
--   of the signer, its consumption, and the read that the token allows.
-- - Lease.Capability, Lease.Ledger: native-host/src/lease/state_machine.rs and store.rs, with the
--   payload of protocol/messages.rs and crypto/capability.rs. A capability is reserved, signed by the
--   platform, and consumed once, on disk before the caller may use it.
-- - Protocol.Envelope, Protocol.Framing: native-host/src/protocol/envelope.rs and framing.rs. A frame
--   is written to and read from a stream of bytes that ends or fails.
-- - HostLoop: native-host/src/host_loop.rs. The loop over the envelopes of one connection, which
--   numbers its answers; what handles a message is the parameter `App`.
-- - Lease.Metadata: native-host/src/lease/metadata.rs. The state of a group on disk, its migration
--   and its reset where the vault is gone.
-- - Config: native-host/src/config.rs. The account groups and the check of their scopes.
-- - Audit: native-host/src/audit.rs. Entries are chained by HMAC over segments of a day (Audit.Chain),
--   recorded with an anchor that is replaced after each entry (Audit.Logger), compacted after a
--   retention time (Audit.Retention), deduplicated with an outbox (Audit.Outbox), and opened with the
--   chain verified (Audit.Open).
-- - Monitor: native-host/src/monitor/mod.rs, with its events of protocol/messages.rs. The bounded queue
--   of events and the ids of those that were accepted already; each event goes to the audit log.
-- - Error: native-host/src/error.rs, where a name stands for the text of an error.
-- - Prelude: shared tests, list functions, little-endian words and types.
-- - Tests: stand-ins for the crates, and each theorem at a concrete input.
--
-- A field name or a function keeps its name in the source; `record_encode` and the like carry the
-- type that the method belongs to. A `Uuid` is its 128-bit number and a byte string a list of
-- numbers, which the theorems that need it bound by 256. Integers are natural numbers: the checked
-- additions of the source test against 2 ^ 64. A loop is a recursion over the list of operations, ids,
-- nonces or lines that it runs over. Only the loop over a connection has fuel, one more than the bytes
-- that the stream has left, and each envelope takes at least one of them.
--
-- Parameters: sha2, serde_json, the uuid, psl and aes_gcm crates, the platform's key service, its
-- local secrets, its signer and its verifier of signatures. Where a theorem needs what they promise,
-- the promise is a hypothesis (`UuidLaws`, `CratesLaws`, `KeyLaws`,
-- `AuditLaws`, `IsEncodable`), and Tests has an
-- instance. Random numbers, clocks and the answers of the operating system are arguments. Panics of
-- `unwrap` stand as error results in branches that the journal's invariants exclude.
--
-- A crash is a restart of the process on the files as a reader finds them, or a loss of power on what
-- the medium may keep; the loss of whole directories is not in the model.
--
-- Not modelled: the dispatcher, whose handlers join these parts, the loading of a configuration file,
-- the export of the audit log, the observation of processes, updates, the platform backends, the
-- listing of directories, the wiping of secrets from memory, and the extension.
pub mod Prelude
pub mod Error
pub mod AtomicFile
pub mod Operation
pub mod Vault
pub mod Transaction
pub mod Lease
pub mod Protocol
pub mod Audit
pub mod Config
pub mod HostLoop
pub mod Monitor
pub mod Tests
