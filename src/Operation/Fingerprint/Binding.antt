-- ===== src/Operation/Fingerprint/Binding.antt =====
-- The text that the tag is computed from determines the context and the snapshot.
use fursoy_vault.Prelude.{
  Bytes, ℕ, ◌^◌, ◌<◌, ◌++◌, ◌≡◌, refl, sym, ap, ◌∙◌, length, take, drop, take-exact, drop-exact,
  le_bytes, from_le, from_le-le_bytes, u64_limit,
}
use fursoy_vault.Vault.Format.{UuidBytes}
use fursoy_vault.Vault.Format.RoundTrip.{UuidLaws}
use fursoy_vault.Operation.Fingerprint.{SnapshotTagContext, snapshot_domain, tag_input}

-- Two texts with fields of one length at the front.
split_front :
    (n : ℕ) (xs ys rest rest' : Bytes)
    → length xs ≡ n
    → length ys ≡ n
    → xs ++ rest ≡ ys ++ rest'
    → (xs ≡ ys) × (rest ≡ rest')
split_front n xs ys rest rest' l m e = (
  sym (take-exact n xs rest l) ∙ ap (take n) e ∙ take-exact n ys rest' m,
  sym (drop-exact n xs rest l) ∙ ap (drop n) e ∙ drop-exact n ys rest' m,
)

-- The context of 128-bit identifiers and 64-bit counters.
pub record IsContext (c : SnapshotTagContext) : Type 0 where
  pub profile : c.profile_id < 2 ^ 128
  pub group : c.account_group_id < 2 ^ 128
  pub operation : c.operation_id < 2 ^ 128
  pub sequence : c.operation_sequence < u64_limit
  pub base : c.base_vault_sequence < u64_limit

module _ (u : UuidBytes) (laws : UuidLaws u) where
  uuid_injective : (a b : ℕ) → a < 2 ^ 128 → b < 2 ^ 128 → u.as_bytes a ≡ u.as_bytes b → a ≡ b
  uuid_injective a b p q e =
      sym (laws.from_as_bytes a p) ∙ ap u.from_bytes e ∙ laws.from_as_bytes b q

  word_injective : (a b : ℕ) → a < u64_limit → b < u64_limit → le_bytes 8 a ≡ le_bytes 8 b → a ≡ b
  word_injective a b p q e = sym (from_le-le_bytes 8 a p) ∙ ap from_le e ∙ from_le-le_bytes 8 b q

  -- No two contexts and snapshots have one text: the tag binds the profile, the group, the
  -- operation, both sequences and every byte of the snapshot.
  pub tag_input-injective :
      (c c' : SnapshotTagContext) (snapshot snapshot' : Bytes)
      → IsContext c
      → IsContext c'
      → tag_input u c snapshot ≡ tag_input u c' snapshot'
      → (c ≡ c') × (snapshot ≡ snapshot')
  unfolding tag_input
  tag_input-injective c c' snapshot snapshot' v v' e =
      let (_, e) = split_front 8 snapshot_domain snapshot_domain _ _ refl refl e in
      let (p, e) =
        split_front 16 _ _ _ _ (laws.as_bytes_width c.profile_id)
          (laws.as_bytes_width c'.profile_id) e in
      let (g, e) =
        split_front 16 _ _ _ _ (laws.as_bytes_width c.account_group_id)
          (laws.as_bytes_width c'.account_group_id) e in
      let (o, e) =
        split_front 16 _ _ _ _ (laws.as_bytes_width c.operation_id)
          (laws.as_bytes_width c'.operation_id) e in
      let (n, e) =
        split_front 8 (le_bytes 8 c.operation_sequence) (le_bytes 8 c'.operation_sequence) _ _ refl
          refl e in
      let (b, e) =
        split_front 8 (le_bytes 8 c.base_vault_sequence) (le_bytes 8 c'.base_vault_sequence) _ _
          refl refl e in
      let p' = uuid_injective c.profile_id c'.profile_id v.profile v'.profile p in
      let g' = uuid_injective c.account_group_id c'.account_group_id v.group v'.group g in
      let o' = uuid_injective c.operation_id c'.operation_id v.operation v'.operation o in
      let n' = word_injective c.operation_sequence c'.operation_sequence v.sequence v'.sequence n in
      let b' = word_injective c.base_vault_sequence c'.base_vault_sequence v.base v'.base b in
      (
        λ i. record {
          profile_id = p' i;
          account_group_id = g' i;
          operation_id = o' i;
          operation_sequence = n' i;
          base_vault_sequence = b' i;
        },
        e,
      )
