-- ===== src/Tests/Configs.antt =====
-- A configuration of two groups, and the metadata of a group that is seen for the first time.
use fursoy_vault.Prelude.{
  Bytes, Uuid, ◌≤◌, false, Option, none, some, [], ◌∷◌, All, length, codes, ◌≡◌, refl,
  Bytes-discrete, ℕ_discrete,
}
use fursoy_vault.Error.{FcpResult, ok, err, json}
use fursoy_vault.Config.{
  Text, AccountGroup, AccountGroupsConfig, balanced, normal_profile, max_groups, config_validate,
}
use fursoy_vault.Config.Owned.{IsSound, owners, with_id, config_validate-Owned}
use fursoy_vault.Lease.Metadata.{
  LeaseMetadata, MetadataHost, MetadataJson, lease_metadata_version, initial, is_uninitialized,
  metadata_load_or_initialize,
}
use fursoy_vault.Lease.Metadata.Loads.{Agrees, load_or_initialize-Agrees}
use fursoy_vault.Tests.Fixtures.{group, no_file}

abbrev group_of : Uuid → Text → AccountGroup
group_of id scope = record {
  id = id;
  display_name = codes "Mail";
  scope = scope;
  policy_level = balanced;
  store_policy = normal_profile;
}

abbrev two_groups : AccountGroupsConfig
two_groups = record {
  version = 3;
  compatibility_version = 3;
  groups = group_of 1 (codes ".Example.com") ∷ group_of 2 (codes "127.0.0.1") ∷ [];
}

-- Every text is a registrable domain of its own.
abbrev own_domain : Text → Option Text
own_domain = some

config_validate-Owned_example :
    (two_groups.version ≡ 3)
    × (two_groups.compatibility_version ≡ 3)
    × (length two_groups.groups ≤ max_groups)
    × All (IsSound own_domain) two_groups.groups
    × (length (with_id 1 two_groups.groups) ≤ 1)
    × (length (owners (codes "www.example.com") two_groups.groups) ≤ 1)
unfolding config_validate fursoy_vault.Config.validate_groups fursoy_vault.Config.is_blank
    fursoy_vault.Config.is_valid_scope Bytes-discrete fursoy_vault.Config.normalize_scope ℕ_discrete
    fursoy_vault.Config.ends_with fursoy_vault.Config.is_ipv4 fursoy_vault.Config.scopes_nest
config_validate-Owned_example =
    config_validate-Owned own_domain two_groups (codes "www.example.com") 1 valid
  where
    valid : config_validate own_domain two_groups ≡ ok tt
    valid = refl

-- The metadata of this file as bytes.
abbrev decode_metadata : Bytes → FcpResult LeaseMetadata
decode_metadata [] = err json
decode_metadata (id ∷ _) = ok (initial id false)

abbrev metadata_json : MetadataJson
metadata_json = record { encode = λ m. ok (m.account_group_id ∷ []); decode = decode_metadata }

abbrev absent : MetadataHost
absent = record { file = no_file; faults = [] }

abbrev loaded : FcpResult LeaseMetadata × MetadataHost
loaded = metadata_load_or_initialize metadata_json none group false absent

load_or_initialize-Agrees_example : Agrees metadata_json group false (initial group false) loaded.1
unfolding metadata_load_or_initialize fursoy_vault.Lease.Metadata.persist_metadata
    fursoy_vault.Lease.Metadata.metadata_validate initial fursoy_vault.AtomicFile.write_verified
    fursoy_vault.AtomicFile.write_verified_durable fursoy_vault.Lease.Metadata.verify_metadata
    fursoy_vault.Lease.Metadata.LeaseMetadata-discrete ℕ_discrete
load_or_initialize-Agrees_example =
    load_or_initialize-Agrees metadata_json none group false absent loaded.1 (initial group false)
      refl
