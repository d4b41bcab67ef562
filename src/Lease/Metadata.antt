-- ===== src/Lease/Metadata.antt =====
-- native-host/src/lease/metadata.rs: the state of a group beside its vault. `MetadataHost` is the file of
-- the metadata with the answers to the coming writes.
pub mod Loads
use fursoy_vault.Prelude.{
  Bytes, Uuid, checked_suc, is_none, ℕ, Bool, true, false, Option, none, some, List, not, ◌==◌,
  ◌||◌, ◌&&◌, leb, ltb, eqb, ℕ_discrete, if◌then◌else◌,
}
use fursoy_vault.Error.{
  FcpError, FcpResult, ok, err, ◌>>=◌, ◌>>◌, refuse_if, ok_or, format, metadata_version,
  metadata_group, transition_exhausted, protocol_floor_unsupported, vault_without_metadata,
  metadata_read_back,
}
use fursoy_vault.AtomicFile.{FileState, Faults, next_faults, later_faults, write_verified}

-- native-host/src/protocol/messages.rs
pub data GroupState : Type 0 where
  uninitialized sealed unlocking leased evicting degraded : GroupState

abbrev pub lease_metadata_version : ℕ
lease_metadata_version = 2

abbrev pub legacy_lease_metadata_version : ℕ
legacy_lease_metadata_version = 1

pub record LeaseMetadata : Type 0 where
  pub version : ℕ  -- u16
  pub account_group_id : Uuid
  pub state : GroupState
  pub lease_id : Option Uuid
  pub granted_at_unix_ms : Option ℕ
  pub expires_at_unix_ms : Option ℕ
  pub pending_operation_id : Option Uuid
  pub vault_sequence : ℕ  -- u64
  pub transition_sequence : ℕ  -- u64
  pub protocol_floor : ℕ  -- u16
  pub operation_sequence_high_water : ℕ  -- u64

unfoldable pub LeaseMetadata-discrete : Discrete LeaseMetadata
LeaseMetadata-discrete = hlevel ℕ_discrete

pub record MetadataHost : Type 0 where
  pub file : FileState
  pub faults : List Faults

-- serde_json for the metadata.
pub record MetadataJson : Type 0 where
  pub encode : LeaseMetadata → FcpResult Bytes
  pub decode : Bytes → FcpResult LeaseMetadata

unfoldable pub initial : Uuid → Bool → LeaseMetadata
initial group vault_exists = record {
  version = lease_metadata_version;
  account_group_id = group;
  state = if vault_exists then sealed else uninitialized;
  lease_id = none;
  granted_at_unix_ms = none;
  expires_at_unix_ms = none;
  pending_operation_id = none;
  vault_sequence = 0;
  transition_sequence = 0;
  protocol_floor = 6;
  operation_sequence_high_water = 0;
}

unfoldable pub metadata_validate : LeaseMetadata → Uuid → FcpResult (Unit {0})
metadata_validate m expected_group = do
  refuse_if (not (m.version == lease_metadata_version)) (format metadata_version)
  refuse_if (not (m.account_group_id == expected_group)) (format metadata_group)

unfoldable pub advance_transition : LeaseMetadata → FcpResult LeaseMetadata
advance_transition m = do
  n ← ok_or (checked_suc m.transition_sequence) (format transition_exhausted)
  ok (record m { transition_sequence = n })

-- The answer says whether something changed.
unfoldable pub activate_protocol_v7 : ℕ → LeaseMetadata → FcpResult (Bool × LeaseMetadata)
activate_protocol_v7 high_water m = do
  refuse_if (ltb 7 m.protocol_floor) (format protocol_floor_unsupported)
  ok (
    ltb m.protocol_floor 7 || ltb m.operation_sequence_high_water high_water,
    record m {
      protocol_floor = 7;
      operation_sequence_high_water =
          if ltb m.operation_sequence_high_water high_water
          then high_water
          else m.operation_sequence_high_water;
    },
  )

abbrev pub is_uninitialized : GroupState → Bool
is_uninitialized uninitialized = true
is_uninitialized _ = false

abbrev is_between : GroupState → Bool
is_between unlocking = true
is_between evicting = true
is_between degraded = true
is_between _ = false

-- What a record of the first version is read as, before its transition.
unfoldable pub migrated : LeaseMetadata → LeaseMetadata
migrated m =
    let m' = record m {
      version = lease_metadata_version;
      protocol_floor = 6;
      operation_sequence_high_water = 0;
    } in
    if is_between m.state || not (is_none m.pending_operation_id)
    then record m' {
      state = degraded;
      lease_id = none;
      granted_at_unix_ms = none;
      expires_at_unix_ms = none;
    }
    else m'

module _ (j : MetadataJson) where
  unfoldable pub verify_metadata : LeaseMetadata → Bytes → FcpResult (Unit {0})
  verify_metadata m persisted = do
    verified ← j.decode persisted
    refuse_if (not (eqb LeaseMetadata-discrete verified m)) (format metadata_read_back)

  abbrev wrote {ℓ} :
      {A : Type ℓ}
      → A
      → MetadataHost
      → FcpResult (Unit {0}) × FileState
      → FcpResult A × MetadataHost
  wrote a h (ok _, file) = (ok a, record { file = file; faults = later_faults h.faults })
  wrote a h (err e, file) = (err e, record { file = file; faults = later_faults h.faults })

  -- `persist`, and what its caller returns after it.
  unfoldable pub persist_metadata :
      LeaseMetadata → MetadataHost → FcpResult LeaseMetadata × MetadataHost
  persist_metadata m h = elim (metadata_validate m m.account_group_id) [
    | err e ↦ (err e, h)
    | ok _ ↦ elim (j.encode m) [
      | err e ↦ (err e, h)
      | ok bytes ↦
          wrote m h (write_verified (next_faults h.faults) bytes (verify_metadata m) h.file)
    ]
  ]

  -- A record of the first version is migrated, and written before it is used.
  unfoldable pub migrate : LeaseMetadata → MetadataHost → FcpResult LeaseMetadata × MetadataHost
  migrate m h =
      if m.version == legacy_lease_metadata_version
      then elim (advance_transition (migrated m)) [
        | err e ↦ (err e, h)
        | ok m' ↦ persist_metadata m' h
      ]
      else (ok m, h)

  -- The vault is authoritative for what is there.
  abbrev pub reconcile :
      Uuid → Bool → FcpResult LeaseMetadata × MetadataHost → FcpResult LeaseMetadata × MetadataHost
  reconcile group vault_exists (err e, h) = (err e, h)
  reconcile group vault_exists (ok m, h) = elim (metadata_validate m group) [
    | err e ↦ (err e, h)
    | ok _ ↦
        if is_uninitialized m.state && vault_exists
        then (err (format vault_without_metadata), h)
        else if not (is_uninitialized m.state) && not vault_exists
        then persist_metadata (initial group false) h
        else (ok m, h)
  ]

  unfoldable pub metadata_load_or_initialize :
      Option FcpError → Uuid → Bool → MetadataHost → FcpResult LeaseMetadata × MetadataHost
  metadata_load_or_initialize read group vault_exists h = elim h.file.target [
    | none ↦ persist_metadata (initial group vault_exists) h
    | some bytes ↦ elim read [
      | some e ↦ (err e, h)
      | none ↦ elim (j.decode bytes) [
        | err e ↦ (err e, h)
        | ok m ↦ reconcile group vault_exists (migrate m h)
      ]
    ]
  ]
