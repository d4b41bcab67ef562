-- ===== src/Vault/Format/Fields.antt =====
-- Reading fields off a cursor, and the layout of a whole record.
use fursoy_vault.Prelude.{
  ℕ, ◌+◌, ◌≤◌, ◌<◌, Bool, true, false, [], ◌∷◌, ◌++◌, ◌≡◌, refl, arith, sym, ap, ◌∙◌, length, take,
  drop, take-exact, drop-exact, drop-drop, length-append, length-drop, length-take,
  take-append-drop, All, IsByte, le_bytes-from_le, le_bytes, from_le, from_le-le_bytes, Bytes,
  u64_limit, ◌==◌, not, inl, inr,
}
use mathlib.Core.Path.{subst}
use fursoy_vault.Error.{
  FcpError, FcpResult, FcpResult-cases, ok, Reason, refuse_if, format, ◌>>=◌, >>=-eq-ok,
}
use fursoy_vault.Vault.Format.{
  VaultRecord, Cursor, cursor_take, take_array, require_u16, UuidBytes, vault_magic,
  vault_format_version, fixed_header_bytes, aead_alg_aes_256_gcm, wrap_alg_rsa_2048_oaep_sha256,
  wrapped_dek_bytes,
}

abbrev pub cursor : Bytes → ℕ → Cursor
cursor b p = record { bytes = b; position = p }

-- At position p the bytes go on with `rest`.
abbrev pub At : Bytes → ℕ → Bytes → Type 0
At b p rest = (drop p b ≡ rest) × (p + length rest ≡ length b)

take_array-ok :
    (n : ℕ) (c c' : Cursor) (xs : Bytes)
    → take_array n c ≡ ok (xs, c')
    → cursor_take n c ≡ ok (xs, c')
unfolding take_array
take_array-ok n c c' xs h = ground arith

require_u16-ok :
    (c c' : Cursor) (expected : ℕ) (field : Reason)
    → require_u16 c expected field ≡ ok c'
    → (v : Bytes) × (take_array 2 c ≡ ok (v, c')) × (from_le v ≡ expected)
unfolding require_u16
require_u16-ok c c' expected field h = elim (FcpResult-cases (take_array 2 c)) [
  | inr (e, t) ↦ absurd (cc (rw (t, require_u16) at h))
  | inl ((v, c''), t) ↦ accepted v c'' t (rw (t, require_u16) at h)
]
  where
    accepted :
        (v : Bytes) (d : Cursor)
        → take_array 2 c ≡ ok (v, d)
        → (refuse_if (not (from_le v == expected)) (format field) >>= λ _. ok d) ≡ ok c'
        → (w : Bytes) × (take_array 2 c ≡ ok (w, c')) × (from_le w ≡ expected)
    accepted v d t f = (v, ground arith, ground arith)

All-front : (xs ys : Bytes) → All IsByte (xs ++ ys) → All IsByte xs
All-front [] ys h = tt
All-front (x ∷ xs) ys h = (h.0, All-front xs ys h.1)

-- What a successful read means, and what makes a read succeed.
module _ (b : Bytes) where
  pub cursor_take-At :
      (n p : ℕ) (xs rest : Bytes)
      → length b < u64_limit
      → At b p (xs ++ rest)
      → length xs ≡ n
      → (cursor_take n (cursor b p) ≡ ok (xs, cursor b (p + n))) × At b (p + n) rest
  unfolding cursor_take
  cursor_take-At n p xs rest fits (d, l) e =
      let k = length-append xs rest in
      let t : take n (drop p b) ≡ xs = rw d (take-exact n xs rest e) in
      let d' : drop (p + n) b ≡ rest = rw (← drop-drop, d) (drop-exact n xs rest e) in
      (ground (arith, t, k), (d', omega (arith, k)))

  pub take_array-At :
      (n p : ℕ) (xs rest : Bytes)
      → length b < u64_limit
      → At b p (xs ++ rest)
      → length xs ≡ n
      → (take_array n (cursor b p) ≡ ok (xs, cursor b (p + n))) × At b (p + n) rest
  unfolding take_array
  take_array-At n p xs rest fits a e =
      let (t, a') = cursor_take-At n p xs rest fits a e in (rw t (ground arith), a')

  pub require_u16-At :
      (p expected : ℕ) (field : Reason) (rest : Bytes)
      → length b < u64_limit
      → expected < 65536
      → At b p (le_bytes 2 expected ++ rest)
      → (require_u16 (cursor b p) expected field ≡ ok (cursor b (p + 2))) × At b (p + 2) rest
  unfolding require_u16
  require_u16-At p expected field rest fits small a =
      let (t, a') = take_array-At 2 p (le_bytes 2 expected) rest fits a refl in
      (rw t (ground (arith, from_le-le_bytes 2 expected)), a')

  cursor_take-ok :
      (n p : ℕ) (xs : Bytes) (c : Cursor)
      → cursor_take n (cursor b p) ≡ ok (xs, c)
      → (c ≡ cursor b (p + n)) × (xs ≡ take n (drop p b)) × (p + n ≤ length b)
  unfolding cursor_take
  cursor_take-ok n p xs c h = ground arith

  -- The other way: a read that succeeds splits off its field.
  pub cursor_take-split :
      (n p : ℕ) (rest xs : Bytes) (c : Cursor)
      → At b p rest
      → cursor_take n (cursor b p) ≡ ok (xs, c)
      → (c ≡ cursor b (p + n))
        × (xs ++ drop n rest ≡ rest)
        × (length xs ≡ n)
        × At b (p + n) (drop n rest)
  cursor_take-split n p rest xs c (d, l) h =
      let (e, t, m) = cursor_take-ok n p xs c h in
      let t' : xs ≡ take n rest = rw d at t in
      let k : n ≤ length rest = omega arith in
      (
        e,
        rw t' (take-append-drop n rest),
        rw t' (length-take n rest k),
        (rw (← drop-drop, d), omega (arith, length-drop n rest)),
      )

  pub take_array-split :
      (n p : ℕ) (rest xs : Bytes) (c : Cursor)
      → At b p rest
      → take_array n (cursor b p) ≡ ok (xs, c)
      → (c ≡ cursor b (p + n))
        × (xs ++ drop n rest ≡ rest)
        × (length xs ≡ n)
        × At b (p + n) (drop n rest)
  take_array-split n p rest xs c a h =
      cursor_take-split n p rest xs c a (take_array-ok n (cursor b p) c xs h)

  pub require_u16-split :
      (p expected : ℕ) (field : Reason) (rest : Bytes) (c : Cursor)
      → All IsByte rest
      → At b p rest
      → require_u16 (cursor b p) expected field ≡ ok c
      → (c ≡ cursor b (p + 2))
        × (le_bytes 2 expected ++ drop 2 rest ≡ rest)
        × At b (p + 2) (drop 2 rest)
  require_u16-split p expected field rest c bytes a h =
      let (v, t, e) = require_u16-ok (cursor b p) c expected field h in
      let (q, j, l, a') = take_array-split 2 p rest v c a t in
      let w : v ≡ le_bytes 2 expected =
        sym (le_bytes-from_le 2 v l (front v j)) ∙ ap (le_bytes 2) e in
      (q, ap (λ (y : Bytes). y ++ drop 2 rest) (sym w) ∙ j, a')
    where
      front : (v : Bytes) → v ++ drop 2 rest ≡ rest → All IsByte v
      front v j = All-front v (drop 2 rest) (rw j bytes)

module _ (u : UuidBytes) where
  -- The bytes of a record, bracketed to the right.
  unfoldable pub layout : VaultRecord → Bytes
  layout r =
      vault_magic
      ++ (le_bytes 2 vault_format_version
          ++ (le_bytes 2 fixed_header_bytes
              ++ (u.as_bytes r.header.group_id
                  ++ (le_bytes 2 aead_alg_aes_256_gcm
                      ++ (le_bytes 2 wrap_alg_rsa_2048_oaep_sha256
                          ++ (r.header.kek_key_id
                              ++ (r.header.nonce
                                  ++ (le_bytes 2 wrapped_dek_bytes
                                      ++ (r.header.wrapped_dek
                                          ++ (le_bytes 4 r.header.ciphertext_len
                                              ++ (r.ciphertext ++ r.tag)))))))))))

-- Inversion of the reads of a decoder, step by step, in the style of a continuation.
module _ {ℓ κ} {R : Type ℓ} {G : Type κ} where
  pub refuse_if-then :
      (test : Bool) (e : FcpError) (f : Unit {0} → FcpResult R) {r : R}
      → (refuse_if test e >>= f) ≡ ok r
      → (test ≡ false → f tt ≡ ok r → G)
      → G
  refuse_if-then true e f h k = absurd (cc h)
  refuse_if-then false e f h k = k refl h

  module _ (b : Bytes) where
    pub cursor_take-then :
        (n p : ℕ) (rest : Bytes) (f : Bytes × Cursor → FcpResult R) {r : R}
        → At b p rest
        → (cursor_take n (cursor b p) >>= f) ≡ ok r
        → ((xs : Bytes)
            → xs ++ drop n rest ≡ rest
            → length xs ≡ n
            → At b (p + n) (drop n rest)
            → f (xs, cursor b (p + n)) ≡ ok r
            → G)
        → G
    cursor_take-then n p rest f {r} a h k =
        let ((xs, c), m, h') = >>=-eq-ok (cursor_take n (cursor b p)) f h in
        let (q, j, l, a') = cursor_take-split b n p rest xs c a m in
        k xs j l a' (subst (λ d. f (xs, d) ≡ ok r) q h')

    pub take_array-then :
        (n p : ℕ) (rest : Bytes) (f : Bytes × Cursor → FcpResult R) {r : R}
        → At b p rest
        → (take_array n (cursor b p) >>= f) ≡ ok r
        → ((xs : Bytes)
            → xs ++ drop n rest ≡ rest
            → length xs ≡ n
            → At b (p + n) (drop n rest)
            → f (xs, cursor b (p + n)) ≡ ok r
            → G)
        → G
    take_array-then n p rest f {r} a h k =
        let ((xs, c), m, h') = >>=-eq-ok (take_array n (cursor b p)) f h in
        let (q, j, l, a') = take_array-split b n p rest xs c a m in
        k xs j l a' (subst (λ d. f (xs, d) ≡ ok r) q h')

    pub require_u16-then :
        (p expected : ℕ) (field : Reason) (rest : Bytes) (f : Cursor → FcpResult R) {r : R}
        → All IsByte rest
        → At b p rest
        → (require_u16 (cursor b p) expected field >>= f) ≡ ok r
        → (le_bytes 2 expected ++ drop 2 rest ≡ rest
            → At b (p + 2) (drop 2 rest)
            → f (cursor b (p + 2)) ≡ ok r
            → G)
        → G
    require_u16-then p expected field rest f {r} bytes a h k =
        let (c, m, h') = >>=-eq-ok (require_u16 (cursor b p) expected field) f h in
        let (q, j, a') = require_u16-split b p expected field rest c bytes a m in
        k j a' (subst (λ d. f d ≡ ok r) q h')
