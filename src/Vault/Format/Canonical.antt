-- ===== src/Vault/Format/Canonical.antt =====
-- The format is strict: what is accepted is the encoding of what is returned.
use fursoy_vault.Prelude.{
  ℕ, ◌+◌, false, [], ◌∷◌, ◌++◌, ◌≡◌, refl, arith, sym, ap, ◌∙◌, length, drop, All, le_bytes-from_le,
  IsByte, Bytes-discrete, bytes_eq, le_bytes, from_le, Uuid, eqb→eq, Bytes, u64_limit, ltb, leb,
  ◌==◌, not,
}
use mathlib.Core.Path.{subst}
use mathlib.Core.List.{append-nil}
use fursoy_vault.Error.{
  ◌>>◌, format, vault_truncated, vault_magic_mismatch, ciphertext_too_long, vault_length_overflow,
  vault_length_mismatch, ok-injective, format_version_unsupported, header_len_unsupported,
  aead_alg_unsupported, wrap_alg_unsupported, wrapped_dek_len_unsupported, ok, ◌>>=◌, >>=-eq-ok,
}
use fursoy_vault.Vault.Format.{
  VaultHeader, VaultRecord, UuidBytes, vault_magic, vault_format_version, fixed_header_bytes,
  aead_alg_aes_256_gcm, wrap_alg_rsa_2048_oaep_sha256, wrapped_dek_bytes, gcm_nonce_bytes,
  gcm_tag_bytes, max_ciphertext_bytes, header_new, record_validate, record_encode, record_decode,
}
use fursoy_vault.Vault.Format.Fields.{
  At, refuse_if-then, cursor_take-then, take_array-then, require_u16-then, layout,
}
use fursoy_vault.Prelude.{All-drop}
use fursoy_vault.Vault.Format.RoundTrip.{
  UuidLaws, IsRecord, record_validate-IsRecord, IsRecord-record_encode,
}

header_new-shape :
    (g : Uuid) (k n d : Bytes) (l : ℕ) {h : VaultHeader}
    → header_new g k n d l ≡ ok h
    → h ≡ record { group_id = g; kek_key_id = k; nonce = n; wrapped_dek = d; ciphertext_len = l }
unfolding header_new
header_new-shape g k n d l h = ground arith

magic_matches : (m : Bytes) → not (bytes_eq m vault_magic) ≡ false → m ≡ vault_magic
magic_matches m h = eqb→eq Bytes-discrete m vault_magic (ground arith)

nothing_left : (xs : Bytes) → length xs ≡ 0 → xs ≡ []
nothing_left [] e = refl
nothing_left (x ∷ xs) e = absurd (omega arith)

All-front : (xs ys zs : Bytes) → xs ++ ys ≡ zs → All IsByte zs → All IsByte xs
All-front xs ys zs e h = go xs (rw e h)
  where
    go : (xs : Bytes) → All IsByte (xs ++ ys) → All IsByte xs
    go [] h = tt
    go (x ∷ xs) h = (h.0, go xs h.1)

chain : (f : Bytes) {x y r : Bytes} → x ≡ y → f ++ y ≡ r → f ++ x ≡ r
chain f e j = ap (λ (z : Bytes). f ++ z) e ∙ j

whole : (f : Bytes) {y r : Bytes} → f ++ y ≡ r → y ≡ [] → f ≡ r
whole f j e = sym (append-nil f) ∙ chain f (sym e) j

-- The first field of a text may be written as any equal text.
respell : {f g : Bytes} (y : Bytes) {r : Bytes} → f ≡ g → f ++ y ≡ r → g ++ y ≡ r
respell y e j = sym (ap (λ (z : Bytes). z ++ y) e) ∙ j

remaining :
    (b rest : Bytes) (n p : ℕ) → not (length b == n) ≡ false → p ≡ n → At b p rest → rest ≡ []
remaining b rest n p t e a = nothing_left rest (ground (arith, a.1))

module _ (u : UuidBytes) (laws : UuidLaws u) where
  encoded : (b : Bytes) (r : VaultRecord) → layout u r ≡ b → IsRecord r → record_encode u r ≡ ok b
  encoded b r e v = IsRecord-record_encode u laws r v ∙ ap ok e

  -- The end of the decoder: the record is built and validated.
  built :
      (b group kek nonce dek ciphertext tag : Bytes) (n : ℕ) (r : VaultRecord)
      → layout u (record {
        header = record {
          group_id = u.from_bytes group;
          kek_key_id = kek;
          nonce = nonce;
          wrapped_dek = dek;
          ciphertext_len = n;
        };
        ciphertext = ciphertext;
        tag = tag;
      })
        ≡ b
      → (header_new (u.from_bytes group) kek nonce dek n >>= λ header.
          let r' : VaultRecord = record { header = header; ciphertext = ciphertext; tag = tag } in
          record_validate r' >> ok r')
        ≡ ok r
      → record_encode u r ≡ ok b
  built b group kek nonce dek ciphertext tag n r e h =
      let (header, m, h) = >>=-eq-ok (header_new (u.from_bytes group) kek nonce dek n) _ h in
      let shape = header_new-shape (u.from_bytes group) kek nonce dek n m in
      let (_, v, h) =
        >>=-eq-ok (record_validate (record { header = header; ciphertext = ciphertext; tag = tag }))
          _ h in
      let q = ok-injective h in
      encoded b r
        (ap (layout u) (
            sym q
            ∙ ap (λ (z : VaultHeader). record { header = z; ciphertext = ciphertext; tag = tag })
                shape)
          ∙ e)
        (record_validate-IsRecord r (subst (λ z. record_validate z ≡ ok tt) q (v ∙ ap ok refl)))

  -- What a decoder accepts that reads whole fields, checks every constant and wants the exact
  -- length, is the encoding of what it returns.
  pub encode-decode :
      (b : Bytes) (r : VaultRecord)
      → All IsByte b
      → record_decode u b ≡ ok r
      → record_encode u r ≡ ok b
  unfolding record_decode layout
  encode-decode b r bytes h =
      refuse_if-then (ltb (length b) (fixed_header_bytes + gcm_tag_bytes)) (format vault_truncated)
        _ h
        λ t0 h.
          take_array-then b 4 0 b _ (refl, omega arith) h
            λ magic j1 l1 a1 h.
              refuse_if-then (not (bytes_eq magic vault_magic)) (format vault_magic_mismatch) _ h
                λ t1 h.
                  require_u16-then b 4 vault_format_version format_version_unsupported (drop 4 b) _
                    (All-drop IsByte 4 b bytes) a1 h
                    λ j2 a2 h.
                      require_u16-then b 6 fixed_header_bytes header_len_unsupported
                        (drop 2 (drop 4 b)) _
                        (All-drop IsByte 2 (drop 4 b) (All-drop IsByte 4 b bytes)) a2 h
                        λ j3 a3 h.
                          take_array-then b 16 8 (drop 2 (drop 2 (drop 4 b))) _ a3 h
                            λ group j4 l4 a4 h.
                              require_u16-then b 24 aead_alg_aes_256_gcm aead_alg_unsupported
                                (drop 16 (drop 2 (drop 2 (drop 4 b)))) _
                                (All-drop IsByte 16 (drop 2 (drop 2 (drop 4 b))) (
                                  All-drop IsByte 2 (drop 2 (drop 4 b))
                                    (All-drop IsByte 2 (drop 4 b) (All-drop IsByte 4 b bytes))))
                                a4 h
                                λ j5 a5 h.
                                  require_u16-then b 26 wrap_alg_rsa_2048_oaep_sha256
                                    wrap_alg_unsupported
                                    (drop 2 (drop 16 (drop 2 (drop 2 (drop 4 b))))) _
                                    (All-drop IsByte 2 (drop 16 (drop 2 (drop 2 (drop 4 b)))) (
                                      All-drop IsByte 16 (drop 2 (drop 2 (drop 4 b))) (
                                        All-drop IsByte 2 (drop 2 (drop 4 b)) (
                                          All-drop IsByte 2 (drop 4 b)
                                            (All-drop IsByte 4 b bytes)))))
                                    a5 h
                                    λ j6 a6 h.
                                      take_array-then b 16 28
                                        (drop 2 (drop 2 (drop 16 (drop 2 (drop 2 (drop 4 b)))))) _
                                        a6 h
                                        λ kek j7 l7 a7 h.
                                          take_array-then b gcm_nonce_bytes 44
                                            (drop 16 (
                                              drop 2
                                                (drop 2 (drop 16 (drop 2 (drop 2 (drop 4 b)))))))
                                            _ a7 h
                                            λ nonce j8 l8 a8 h.
                                              require_u16-then b 56 wrapped_dek_bytes
                                                wrapped_dek_len_unsupported
                                                (drop gcm_nonce_bytes (
                                                  drop 16 (
                                                    drop 2 (
                                                      drop 2
                                                        (drop 16 (drop 2 (drop 2 (drop 4 b))))))))
                                                _
                                                (All-drop IsByte gcm_nonce_bytes
                                                  (drop 16 (
                                                    drop 2 (
                                                      drop 2
                                                        (drop 16 (drop 2 (drop 2 (drop 4 b)))))))
                                                  (All-drop IsByte 16
                                                    (drop 2 (
                                                      drop 2
                                                        (drop 16 (drop 2 (drop 2 (drop 4 b))))))
                                                    (All-drop IsByte 2
                                                      (drop 2
                                                        (drop 16 (drop 2 (drop 2 (drop 4 b)))))
                                                      (All-drop IsByte 2
                                                        (drop 16 (drop 2 (drop 2 (drop 4 b))))
                                                        (All-drop IsByte 16
                                                          (drop 2 (drop 2 (drop 4 b)))
                                                          (All-drop IsByte 2 (drop 2 (drop 4 b)) (
                                                            All-drop IsByte 2 (drop 4 b)
                                                            (All-drop IsByte 4 b bytes))))))))
                                                a8 h
                                                λ j9 a9 h.
                                                  cursor_take-then b wrapped_dek_bytes 58
                                                    (drop 2 (
                                                      drop gcm_nonce_bytes (
                                                        drop 16 (
                                                          drop 2 (
                                                            drop 2 (
                                                            drop 16
                                                            (drop 2 (drop 2 (drop 4 b)))))))))
                                                    _ a9 h
                                                    λ dek j10 l10 a10 h.
                                                      take_array-then b 4 314
                                                        (drop wrapped_dek_bytes (
                                                          drop 2 (
                                                            drop gcm_nonce_bytes (
                                                            drop 16 (
                                                            drop 2 (
                                                            drop 2 (
                                                            drop 16
                                                            (drop 2 (drop 2 (drop 4 b))))))))))
                                                        _ a10 h
                                                        λ len j11 l11 a11 h.
                                                          refuse_if-then
                                                            (ltb max_ciphertext_bytes (from_le len))
                                                            (format ciphertext_too_long) _ h
                                                            λ t2 h.
                                                            refuse_if-then
                                                            (leb u64_limit (
                                                            fixed_header_bytes
                                                            + from_le len
                                                            + gcm_tag_bytes))
                                                            (format vault_length_overflow) _ h
                                                            λ t3 h.
                                                            refuse_if-then
                                                            (not (
                                                            length b
                                                            == fixed_header_bytes
                                                            + from_le len
                                                            + gcm_tag_bytes))
                                                            (format vault_length_mismatch) _ h
                                                            λ t4 h.
                                                            cursor_take-then b (from_le len) 318
                                                            (drop 4 (
                                                            drop wrapped_dek_bytes (
                                                            drop 2 (
                                                            drop gcm_nonce_bytes (
                                                            drop 16 (
                                                            drop 2 (
                                                            drop 2 (
                                                            drop 16
                                                            (drop 2 (drop 2 (drop 4 b)))))))))))
                                                            _ a11 h
                                                            λ ciphertext j12 l12 a12 h.
                                                            take_array-then b gcm_tag_bytes
                                                            (318 + from_le len)
                                                            (drop (from_le len) (
                                                            drop 4 (
                                                            drop wrapped_dek_bytes (
                                                            drop 2 (
                                                            drop gcm_nonce_bytes (
                                                            drop 16 (
                                                            drop 2 (
                                                            drop 2 (
                                                            drop 16
                                                            (drop 2 (drop 2 (drop 4 b))))))))))))
                                                            _ a12 h
                                                            λ tag j13 l13 a13 h.
                                                            let end =
                                                            remaining b _
                                                            (fixed_header_bytes
                                                            + from_le len
                                                            + gcm_tag_bytes)
                                                            _ t4 (omega arith) a13 in
                                                            let j11 =
                                                            respell _
                                                            (sym (
                                                            le_bytes-from_le 4 len l11 (
                                                            All-front len _ _ j11 (
                                                            All-drop IsByte wrapped_dek_bytes
                                                            (drop 2 (
                                                            drop gcm_nonce_bytes (
                                                            drop 16 (
                                                            drop 2 (
                                                            drop 2 (
                                                            drop 16
                                                            (drop 2 (drop 2 (drop 4 b)))))))))
                                                            (All-drop IsByte 2
                                                            (drop gcm_nonce_bytes (
                                                            drop 16 (
                                                            drop 2 (
                                                            drop 2 (
                                                            drop 16
                                                            (drop 2 (drop 2 (drop 4 b))))))))
                                                            (All-drop IsByte gcm_nonce_bytes
                                                            (drop 16 (
                                                            drop 2 (
                                                            drop 2 (
                                                            drop 16 (drop 2 (drop 2 (drop 4 b)))))))
                                                            (All-drop IsByte 16
                                                            (drop 2 (
                                                            drop 2
                                                            (drop 16 (drop 2 (drop 2 (drop 4 b))))))
                                                            (All-drop IsByte 2
                                                            (drop 2
                                                            (drop 16 (drop 2 (drop 2 (drop 4 b)))))
                                                            (All-drop IsByte 2
                                                            (drop 16 (drop 2 (drop 2 (drop 4 b))))
                                                            (All-drop IsByte 16
                                                            (drop 2 (drop 2 (drop 4 b)))
                                                            (All-drop IsByte 2 (drop 2 (drop 4 b)) (
                                                            All-drop IsByte 2 (drop 4 b)
                                                            (All-drop IsByte 4 b bytes)))))))))))))
                                                            j11 in
                                                            let j4 =
                                                            respell _
                                                            (sym (
                                                            laws.as_from_bytes group l4 (
                                                            All-front group _ _ j4 (
                                                            All-drop IsByte 2 (drop 2 (drop 4 b)) (
                                                            All-drop IsByte 2 (drop 4 b)
                                                            (All-drop IsByte 4 b bytes))))))
                                                            j4 in
                                                            let j1 =
                                                            respell _ (magic_matches magic t1) j1 in
                                                            built b group kek nonce dek ciphertext
                                                            tag (from_le len) r
                                                            (chain vault_magic
                                                            (chain (le_bytes 2 vault_format_version)
                                                            (chain (le_bytes 2 fixed_header_bytes)
                                                            (chain (u.as_bytes (u.from_bytes group))
                                                            (chain (le_bytes 2 aead_alg_aes_256_gcm)
                                                            (chain
                                                            (le_bytes 2
                                                            wrap_alg_rsa_2048_oaep_sha256)
                                                            (chain kek
                                                            (chain nonce
                                                            (chain (le_bytes 2 wrapped_dek_bytes)
                                                            (chain dek
                                                            (chain (le_bytes 4 (from_le len))
                                                            (chain ciphertext (whole tag j13 end)
                                                            j12)
                                                            j11)
                                                            j10)
                                                            j9)
                                                            j8)
                                                            j7)
                                                            j6)
                                                            j5)
                                                            j4)
                                                            j3)
                                                            j2)
                                                            j1)
                                                            h
