-- ===== src/Vault/Format/RoundTrip.antt =====
-- A vault record survives its encoding, and the format has one encoding of each record.
use fursoy_vault.Prelude.{
  ℕ, ◌+◌, ◌^◌, ◌≤◌, ◌<◌, true, false, [], ◌++◌, ◌≡◌, refl, arith, sym, ap, ◌∙◌, length,
  length-append, All, IsByte, is_nil, eqb_refl, Bytes-discrete, le_bytes, from_le, from_le-le_bytes,
  Bytes, u64_limit, ltb, leb, ◌==◌,
}
use mathlib.Core.List.{append_assoc, append-nil}
use fursoy_vault.Error.{
  ok-injective, format_version_unsupported, header_len_unsupported, aead_alg_unsupported,
  wrap_alg_unsupported, wrapped_dek_len_unsupported, ok, >>=-eq-ok,
}
use fursoy_vault.Vault.Format.{
  VaultRecord, cursor_take, take_array, require_u16, UuidBytes, vault_magic, vault_format_version,
  fixed_header_bytes, aead_alg_aes_256_gcm, wrap_alg_rsa_2048_oaep_sha256, wrapped_dek_bytes,
  gcm_nonce_bytes, gcm_tag_bytes, max_ciphertext_bytes, header_new, header_validate,
  record_validate, header_encode, record_encode, record_decode,
}
use fursoy_vault.Vault.Format.Fields.{
  cursor, At, cursor_take-At, take_array-At, require_u16-At, layout,
}

-- The lengths of the source's arrays.
pub record HasWidths (r : VaultRecord) : Type 0 where
  pub group_id : r.header.group_id < 2 ^ 128
  pub kek_key_id : length r.header.kek_key_id ≡ 16
  pub nonce : length r.header.nonce ≡ gcm_nonce_bytes
  pub tag : length r.tag ≡ gcm_tag_bytes

-- The documented behaviour of the uuid crate: 16 bytes, in both directions.
pub record UuidLaws (u : UuidBytes) : Type 0 where
  pub as_bytes_width : (g : ℕ) → length (u.as_bytes g) ≡ 16
  pub from_as_bytes : (g : ℕ) → g < 2 ^ 128 → u.from_bytes (u.as_bytes g) ≡ g
  pub as_from_bytes : (b : Bytes) → length b ≡ 16 → All IsByte b → u.as_bytes (u.from_bytes b) ≡ b

-- What `record_validate` accepts.
pub record IsRecord (r : VaultRecord) : Type 0 where
  pub group_set : is_nil r.header.group_id ≡ false
  pub dek_width : length r.header.wrapped_dek ≡ wrapped_dek_bytes
  pub bounded : r.header.ciphertext_len ≤ max_ciphertext_bytes
  pub matches : length r.ciphertext ≡ r.header.ciphertext_len

pub record_validate-IsRecord : (r : VaultRecord) → record_validate r ≡ ok tt → IsRecord r
unfolding record_validate header_validate
record_validate-IsRecord r h = ground arith

IsRecord-record_validate : (r : VaultRecord) → IsRecord r → record_validate r ≡ ok tt
unfolding record_validate header_validate
IsRecord-record_validate r v = ground arith

IsRecord-header_new :
    (r : VaultRecord)
    → IsRecord r
    → header_new r.header.group_id r.header.kek_key_id r.header.nonce r.header.wrapped_dek
        r.header.ciphertext_len
      ≡ ok r.header
unfolding header_new
IsRecord-header_new r v = ground arith

header_ok : (u : UuidBytes) (r : VaultRecord) → IsRecord r → header_validate r.header ≡ ok tt
unfolding header_validate
header_ok u r v = ground arith

record_encode-validates :
    (u : UuidBytes) (r : VaultRecord) {b : Bytes}
    → record_encode u r ≡ ok b
    → record_validate r ≡ ok tt
unfolding record_encode
record_encode-validates u r h = let (_, a, _) = >>=-eq-ok (record_validate r) _ h in a

module _ (u : UuidBytes) (laws : UuidLaws u) where
  length-layout :
      (r : VaultRecord)
      → IsRecord r
      → HasWidths r
      → length (layout u r) ≡ fixed_header_bytes + r.header.ciphertext_len + gcm_tag_bytes
  unfolding layout
  length-layout r v w = simp length-append (
      omega (
        arith,
        laws.as_bytes_width r.header.group_id,
        v.dek_width,
        v.matches,
        w.kek_key_id,
        w.nonce,
        w.tag,
      ))

  pub IsRecord-record_encode : (r : VaultRecord) → IsRecord r → record_encode u r ≡ ok (layout u r)
  unfolding record_encode header_encode layout header_validate
  IsRecord-record_encode r v =
      rw (IsRecord-record_validate r v, header_ok u r v) (ap ok (simp append_assoc))

  record_encode-layout :
      (r : VaultRecord) {b : Bytes} → record_encode u r ≡ ok b → (b ≡ layout u r) × IsRecord r
  record_encode-layout r h =
      let v = record_validate-IsRecord r (record_encode-validates u r h) in
      (ok-injective (sym h ∙ IsRecord-record_encode r v), v)

  -- The reads of `record_decode`, in their order, give the fields of r.
  record Reads (b : Bytes) (r : VaultRecord) : Type 0 where
    magic : take_array 4 (cursor b 0) ≡ ok (vault_magic, cursor b 4)
    version :
        require_u16 (cursor b 4) vault_format_version format_version_unsupported ≡ ok (cursor b 6)
    header_len :
        require_u16 (cursor b 6) fixed_header_bytes header_len_unsupported ≡ ok (cursor b 8)
    group : take_array 16 (cursor b 8) ≡ ok (u.as_bytes r.header.group_id, cursor b 24)
    aead_alg :
        require_u16 (cursor b 24) aead_alg_aes_256_gcm aead_alg_unsupported ≡ ok (cursor b 26)
    wrap_alg :
        require_u16 (cursor b 26) wrap_alg_rsa_2048_oaep_sha256 wrap_alg_unsupported
        ≡ ok (cursor b 28)
    kek : take_array 16 (cursor b 28) ≡ ok (r.header.kek_key_id, cursor b 44)
    nonce : take_array gcm_nonce_bytes (cursor b 44) ≡ ok (r.header.nonce, cursor b 56)
    dek_len :
        require_u16 (cursor b 56) wrapped_dek_bytes wrapped_dek_len_unsupported ≡ ok (cursor b 58)
    dek : cursor_take wrapped_dek_bytes (cursor b 58) ≡ ok (r.header.wrapped_dek, cursor b 314)
    len : take_array 4 (cursor b 314) ≡ ok (le_bytes 4 r.header.ciphertext_len, cursor b 318)
    ciphertext :
        cursor_take r.header.ciphertext_len (cursor b 318)
        ≡ ok (r.ciphertext, cursor b (318 + r.header.ciphertext_len))
    tag :
        take_array gcm_tag_bytes (cursor b (318 + r.header.ciphertext_len))
        ≡ ok (r.tag, cursor b (318 + r.header.ciphertext_len + 16))

  layout-Reads : (r : VaultRecord) → IsRecord r → HasWidths r → Reads (layout u r) r
  unfolding layout
  layout-Reads r v w =
      let b = layout u r in
      let n = length-layout r v w in
      let fits : length b < u64_limit = omega (arith, v.bounded) in
      let a0 : At b 0 (layout u r) = (refl, omega arith) in
      let (e1, a1) = take_array-At b 4 0 vault_magic _ fits a0 refl in
      let (e2, a2) =
        require_u16-At b 4 vault_format_version format_version_unsupported _ fits (omega arith)
          a1 in
      let (e3, a3) =
        require_u16-At b 6 fixed_header_bytes header_len_unsupported _ fits (omega arith) a2 in
      let (e4, a4) =
        take_array-At b 16 8 (u.as_bytes r.header.group_id) _ fits a3 (laws.as_bytes_width _) in
      let (e5, a5) =
        require_u16-At b 24 aead_alg_aes_256_gcm aead_alg_unsupported _ fits (omega arith) a4 in
      let (e6, a6) =
        require_u16-At b 26 wrap_alg_rsa_2048_oaep_sha256 wrap_alg_unsupported _ fits (omega arith)
          a5 in
      let (e7, a7) = take_array-At b 16 28 r.header.kek_key_id _ fits a6 w.kek_key_id in
      let (e8, a8) = take_array-At b gcm_nonce_bytes 44 r.header.nonce _ fits a7 w.nonce in
      let (e9, a9) =
        require_u16-At b 56 wrapped_dek_bytes wrapped_dek_len_unsupported _ fits (omega arith) a8 in
      let (e10, a10) =
        cursor_take-At b wrapped_dek_bytes 58 r.header.wrapped_dek _ fits a9 v.dek_width in
      let (e11, a11) = take_array-At b 4 314 (le_bytes 4 r.header.ciphertext_len) _ fits a10 refl in
      let (e12, a12) =
        cursor_take-At b r.header.ciphertext_len 318 r.ciphertext r.tag fits a11 v.matches in
      let a12' : At b (318 + r.header.ciphertext_len) (r.tag ++ []) = rw append-nil a12 in
      let (e13, a13) =
        take_array-At b gcm_tag_bytes (318 + r.header.ciphertext_len) r.tag [] fits a12' w.tag in
      record {
        magic = e1;
        version = e2;
        header_len = e3;
        group = e4;
        aead_alg = e5;
        wrap_alg = e6;
        kek = e7;
        nonce = e8;
        dek_len = e9;
        dek = e10;
        len = e11;
        ciphertext = e12;
        tag = e13;
      }

  decode-Reads :
      (b : Bytes) (r : VaultRecord)
      → IsRecord r
      → HasWidths r
      → length b ≡ fixed_header_bytes + r.header.ciphertext_len + gcm_tag_bytes
      → Reads b r
      → record_decode u b ≡ ok r
  unfolding record_decode
  decode-Reads b r v w n t =
      let len : from_le (le_bytes 4 r.header.ciphertext_len) ≡ r.header.ciphertext_len =
        from_le-le_bytes 4 r.header.ciphertext_len (omega (arith, v.bounded)) in
      let long : ltb (length b) (fixed_header_bytes + gcm_tag_bytes) ≡ false = ground arith in
      let small : ltb max_ciphertext_bytes r.header.ciphertext_len ≡ false = ground arith in
      let fits : leb u64_limit (fixed_header_bytes + r.header.ciphertext_len + gcm_tag_bytes)
          ≡ false =
        ground arith in
      let exact : (length b == fixed_header_bytes + r.header.ciphertext_len + gcm_tag_bytes)
          ≡ true =
        ground arith in
      rw (
        long,
        t.magic,
        eqb_refl Bytes-discrete vault_magic,
        t.version,
        t.header_len,
        t.group,
        t.aead_alg,
        t.wrap_alg,
        t.kek,
        t.nonce,
        t.dek_len,
        t.dek,
        t.len,
        len,
        small,
        fits,
        exact,
        t.ciphertext,
        t.tag,
        laws.from_as_bytes r.header.group_id w.group_id,
        IsRecord-header_new r v,
        IsRecord-record_validate r v,
      )

  -- A record that is encoded is decoded to itself.
  pub decode-encode :
      (r : VaultRecord) (b : Bytes)
      → HasWidths r
      → record_encode u r ≡ ok b
      → record_decode u b ≡ ok r
  decode-encode r b w h =
      let (e, v) = record_encode-layout r h in
      rw e (decode-Reads (layout u r) r v w (length-layout r v w) (layout-Reads r v w))
