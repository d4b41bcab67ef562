-- ===== src/Audit/Hex.antt =====
-- native-host/src/audit.rs: a message authentication code as lowercase hexadecimal text. A text is its
-- bytes. The source cuts the text into pairs by `str` slices.
use fursoy_vault.Prelude.{
  Bytes, bytes_eq, Bytes-discrete, ℕ, ◌+◌, ◌-◌, ◌*◌, ◌/◌, ◌%◌, ◌<◌, ◌&&◌, Option, none, some, [],
  ◌∷◌, ◌≡◌, refl, arith, ap, not, ◌==◌, leb, ltb, length, All, IsByte, if◌then◌else◌, eqb→eq,
  eqb_refl, false, true, Bool-cases, inl, inr,
}
use fursoy_vault.Error.{
  FcpResult, ok, err, ◌>>=◌, ◌>>◌, >>=-eq-ok, ok-injective, refuse_if, ok_or, format,
  mac_length_invalid, mac_not_hex, mac_not_canonical,
}

abbrev pub mac_bytes : ℕ
mac_bytes = 32

-- `{:x}` of a number below 16.
unfoldable pub hex_digit : ℕ → ℕ
hex_digit n = if ltb n 10 then b'0' + n else b'a' + (n - 10)

unfoldable pub encode_hex : Bytes → Bytes
encode_hex [] = []
encode_hex (b ∷ bs) = hex_digit (b / 16) ∷ hex_digit (b % 16) ∷ encode_hex bs

digit_value : ℕ → Option ℕ
digit_value c =
    if leb b'0' c && leb c b'9'
    then some (c - b'0')
    else if leb b'a' c && leb c b'f'
    then some (c - b'a' + 10)
    else if leb b'A' c && leb c b'F'
    then some (c - b'A' + 10)
    else none

-- `u8::from_str_radix` of two bytes: a plus sign may stand in front of one digit.
unfoldable pub radix_pair : ℕ → ℕ → Option ℕ
unfolding digit_value
radix_pair a b = elim (digit_value b) [
  | none ↦ none
  | some low ↦
      if a == b'+'
      then some low
      else elim (digit_value a) [ none ↦ none | some high ↦ some (high * 16 + low) ]
]

unfoldable pub decode_pairs : Bytes → FcpResult Bytes
decode_pairs [] = ok []
decode_pairs (a ∷ []) = err (format mac_not_hex)
decode_pairs (a ∷ b ∷ rest) = do
  slot ← ok_or (radix_pair a b) (format mac_not_hex)
  others ← decode_pairs rest
  ok (slot ∷ others)

unfoldable pub decode_mac : Bytes → FcpResult Bytes
decode_mac value = do
  refuse_if (not (length value == 64)) (format mac_length_invalid)
  decoded ← decode_pairs value
  refuse_if (not (bytes_eq (encode_hex decoded) value)) (format mac_not_canonical)
  ok decoded

digit_value-hex_digit : (n : ℕ) → n < 16 → digit_value (hex_digit n) ≡ some n
unfolding digit_value hex_digit
digit_value-hex_digit n h = ground arith

hex_digit_no_sign : (n : ℕ) → (hex_digit n == b'+') ≡ false
unfolding hex_digit
hex_digit_no_sign n = ground arith

radix_pair-digits :
    (b : ℕ) → b < 256 → radix_pair (hex_digit (b / 16)) (hex_digit (b % 16)) ≡ some b
unfolding radix_pair
radix_pair-digits b h =
    rw
      (
        radix_pair,
        digit_value-hex_digit (b % 16) (omega arith),
        hex_digit_no_sign (b / 16),
        digit_value-hex_digit (b / 16) (omega arith),
      )
      (ap some (omega arith))

decode_pairs-encode_hex : (bs : Bytes) → All IsByte bs → decode_pairs (encode_hex bs) ≡ ok bs
unfolding decode_pairs encode_hex
decode_pairs-encode_hex [] h = refl
decode_pairs-encode_hex (b ∷ bs) h =
    rw (radix_pair-digits b h.0, decode_pairs-encode_hex bs h.1) refl

length-encode_hex : (bs : Bytes) → length (encode_hex bs) ≡ 2 * length bs
unfolding encode_hex
length-encode_hex [] = refl
length-encode_hex (b ∷ bs) = omega (arith, length-encode_hex bs)

-- The text of 32 bytes is read back.
pub decode_mac-encode_hex :
    (bs : Bytes) → length bs ≡ mac_bytes → All IsByte bs → decode_mac (encode_hex bs) ≡ ok bs
unfolding decode_mac
decode_mac-encode_hex bs l h =
    let n : (length (encode_hex bs) == 64) ≡ true = ground (arith, length-encode_hex bs) in
    rw (n, decode_pairs-encode_hex bs h, eqb_refl Bytes-discrete (encode_hex bs)) refl

-- A text that is accepted is the one that its bytes are written as.
pub encode_hex-decode_mac :
    (value bs : Bytes)
    → decode_mac value ≡ ok bs
    → (encode_hex bs ≡ value) × (length bs ≡ mac_bytes)
unfolding decode_mac
encode_hex-decode_mac value bs h =
    let (_, n, h) = >>=-eq-ok (refuse_if (not (length value == 64)) _) _ h in
    let (decoded, _, h) = >>=-eq-ok (decode_pairs value) _ h in
    elim (Bool-cases (bytes_eq (encode_hex decoded) value)) [
      | inr t ↦ absurd (cc (rw t at h))
      | inl t ↦
          let e : decoded ≡ bs = ok-injective (rw t at h) in
          let same : encode_hex bs ≡ value =
            rw (← e) (eqb→eq Bytes-discrete (encode_hex decoded) value t) in
          let long : length value ≡ 64 = ground arith in
          (same, omega (arith, ap length same, length-encode_hex bs))
    ]
