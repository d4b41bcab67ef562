-- ===== src/Operation/Fingerprint.antt =====
-- native-host/src/operation/fingerprint.rs: the keyed tag of a snapshot. A `u8` is a number below
-- 256.
pub mod Binding
use fursoy_vault.Prelude.{
  Bytes, Uuid, ℕ, zero, suc, ◌+◌, ◌*◌, ◌/◌, ◌%◌, List, [], ◌∷◌, ◌++◌, le_bytes, replicate, drop,
}
use fursoy_vault.Vault.Format.{UuidBytes}

pub record SnapshotTagContext : Type 0 where
  pub profile_id : Uuid
  pub account_group_id : Uuid
  pub operation_id : Uuid
  pub operation_sequence : ℕ  -- u64
  pub base_vault_sequence : ℕ  -- u64

-- The exclusive or of the low n bits.
xor_bits : ℕ → ℕ → ℕ → ℕ
xor_bits zero a b = 0
xor_bits (suc n) a b = (a + b) % 2 + 2 * xor_bits n (a / 2) (b / 2)

-- A pad of one byte value, with the key over its front.
pad_with_key : ℕ → Bytes → Bytes → Bytes
unfolding xor_bits
pad_with_key byte [] rest = rest
pad_with_key byte (k ∷ ks) [] = []
pad_with_key byte (k ∷ ks) (p ∷ ps) = xor_bits 8 p k ∷ pad_with_key byte ks ps

abbrev block_bytes : ℕ
block_bytes = 64

-- The text "FCPSNAP1".
abbrev pub snapshot_domain : Bytes
snapshot_domain = b'F' ∷ b'C' ∷ b'P' ∷ b'S' ∷ b'N' ∷ b'A' ∷ b'P' ∷ b'1' ∷ []

-- `sha256` is the digest of the sha2 crate.
unfoldable pub hmac_sha256 : (Bytes → Bytes) → Bytes → Bytes → Bytes
unfolding pad_with_key
hmac_sha256 sha256 key bytes =
    let inner_hash = sha256 (pad_with_key 54 key (replicate block_bytes 54) ++ bytes) in
    sha256 (pad_with_key 92 key (replicate block_bytes 92) ++ inner_hash)

-- What the tag is computed from.
unfoldable pub tag_input : UuidBytes → SnapshotTagContext → Bytes → Bytes
tag_input u context canonical_snapshot =
    snapshot_domain
    ++ (u.as_bytes context.profile_id
        ++ (u.as_bytes context.account_group_id
            ++ (u.as_bytes context.operation_id
                ++ (le_bytes 8 context.operation_sequence
                    ++ (le_bytes 8 context.base_vault_sequence ++ canonical_snapshot)))))

unfoldable pub tag : (Bytes → Bytes) → UuidBytes → Bytes → SnapshotTagContext → Bytes → Bytes
unfolding hmac_sha256
tag sha256 u key context canonical_snapshot =
    hmac_sha256 sha256 key (tag_input u context canonical_snapshot)
