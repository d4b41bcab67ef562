-- ===== src/Vault/Format/Widths.antt =====
-- The width of the key id in the header that `VaultRecord::decode` returns.
use fursoy_vault.Prelude.{
  Bytes, Uuid, ℕ, ◌≡◌, arith, sym, ap, ◌∙◌, not, ◌==◌, length, leb, ltb, u64_limit, from_le,
  bytes_eq, ◌+◌,
}
use fursoy_vault.Error.{
  FcpResult, ok, ◌>>=◌, >>=-eq-ok, ok-injective, refuse_if, format, vault_length_overflow,
  vault_length_mismatch,
}
use fursoy_vault.Vault.Format.{
  VaultHeader, VaultRecord, UuidBytes, Cursor, record_decode, take_array, cursor_take, require_u16,
  header_new, record_validate, gcm_tag_bytes, gcm_nonce_bytes, max_ciphertext_bytes,
  fixed_header_bytes, vault_magic, wrapped_dek_bytes,
}

take_array-width :
    (n : ℕ) (c c' : Cursor) (value : Bytes) → take_array n c ≡ ok (value, c') → length value ≡ n
unfolding take_array
take_array-width n c c' value h =
    let ((v, d), _, h) = >>=-eq-ok (cursor_take n c) _ h in
    let (_, w, h) = >>=-eq-ok (refuse_if (not (length v == n)) _) _ h in
    let same : v ≡ value = cc h in ground (arith, w, same)

pub kek_of_header :
    (g : Uuid) (k n d : Bytes) (l : ℕ) (h : VaultHeader)
    → header_new g k n d l ≡ ok h
    → h ≡ record { group_id = g; kek_key_id = k; nonce = n; wrapped_dek = d; ciphertext_len = l }
unfolding header_new
kek_of_header g k n d l h e = ground arith

-- The step of a chain that returned, and the rest of it.
through {ℓ κ ι} :
    {A : Type ℓ} {B : Type κ} {P : Type ι} (m : FcpResult A) (f : A → FcpResult B) {b : B}
    → m >>= f ≡ ok b
    → ((a : A) → m ≡ ok a → f a ≡ ok b → P)
    → P
through m f h k = let (a, e, h') = >>=-eq-ok m f h in k a e h'

decoded_header :
    (header : VaultHeader) (kek ciphertext tag nonce wrapped : Bytes) (g : Uuid) (l : ℕ)
    (r : VaultRecord)
    → header_new g kek nonce wrapped l ≡ ok header
    → record { header = header; ciphertext = ciphertext; tag = tag } ≡ r
    → length kek ≡ 16
    → length r.header.kek_key_id ≡ 16
decoded_header header kek ciphertext tag nonce wrapped g l r made same w =
    ap (λ (z : Bytes). length z)
      (ap (λ (z : VaultRecord). z.header.kek_key_id) (sym same)
        ∙ ap (λ (z : VaultHeader). z.kek_key_id) (kek_of_header g kek nonce wrapped l header made))
    ∙ w

pub decoded_kek :
    (u : UuidBytes) (b : Bytes) (r : VaultRecord)
    → record_decode u b ≡ ok r
    → length r.header.kek_key_id ≡ 16
unfolding record_decode
decoded_kek u b r h =
    through (refuse_if (ltb (length b) (fixed_header_bytes + gcm_tag_bytes)) _) _ h λ _ _ h.
      through (take_array 4 (record { bytes = b; position = 0 })) _ h λ magic _ h.
        through (refuse_if (not (bytes_eq magic.0 vault_magic)) _) _ h λ _ _ h.
          through (require_u16 magic.1 _ _) _ h λ c2 _ h. through (require_u16 c2 _ _) _ h λ c3 _ h.
            through (take_array 16 c3) _ h λ group _ h.
              through (require_u16 group.1 _ _) _ h λ c5 _ h.
                through (require_u16 c5 _ _) _ h λ c6 _ h.
                  through (take_array 16 c6) _ h λ kek width h.
                    through (take_array gcm_nonce_bytes kek.1) _ h λ nonce _ h.
                      through (require_u16 nonce.1 _ _) _ h λ c9 _ h.
                        through (cursor_take wrapped_dek_bytes c9) _ h λ wrapped _ h.
                          through (take_array 4 wrapped.1) _ h λ size _ h.
                            through (refuse_if (ltb max_ciphertext_bytes (from_le size.0)) _) _ h
                              λ _ _ h.
                                through
                                  (refuse_if
                                    (leb u64_limit
                                      (fixed_header_bytes + from_le size.0 + gcm_tag_bytes))
                                    (format vault_length_overflow))
                                  _ h
                                  λ _ _ h.
                                    through
                                      (refuse_if
                                        (not (
                                          length b
                                          == (fixed_header_bytes + from_le size.0 + gcm_tag_bytes)))
                                        (format vault_length_mismatch))
                                      _ h
                                      λ _ _ h.
                                        through (cursor_take (from_le size.0) size.1) _ h
                                          λ ciphertext _ h.
                                            through (take_array gcm_tag_bytes ciphertext.1) _ h
                                              λ tag _ h.
                                                through
                                                  (header_new (u.from_bytes group.0) kek.0 nonce.0
                                                    wrapped.0 (from_le size.0))
                                                  _ h
                                                  λ header made h.
                                                    through
                                                      (record_validate (record {
                                                        header = header;
                                                        ciphertext = ciphertext.0;
                                                        tag = tag.0;
                                                      }))
                                                      _ h
                                                      λ _ _ h.
                                                        decoded_header header kek.0 ciphertext.0
                                                          tag.0 nonce.0 wrapped.0
                                                          (u.from_bytes group.0) (from_le size.0) r
                                                          made (ok-injective h)
                                                          (take_array-width 16 c6 kek.1 kek.0 width)
