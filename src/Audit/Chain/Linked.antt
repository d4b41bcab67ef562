-- ===== src/Audit/Chain/Linked.antt =====
-- What one round of the loop of `verify_chain` establishes, and what it needs.
use fursoy_vault.Prelude.{
  Bytes, bytes_eq, Bytes-discrete, u64_limit, checked_suc, ℕ, ◌+◌, ◌<◌, Bool, true, false, ◌&&◌,
  ◌||◌, Option, [], ◌∷◌, ◌≡◌, refl, arith, ap, sym, ◌∙◌, not, ◌==◌, ltb, length, All, IsByte,
  eqb→eq, eqb_refl,
}
use fursoy_vault.Error.{
  FcpError, ok, >>=-eq-ok, ok-injective, refuse_if, ok_or, format, audit_sequence_overflow,
}
use fursoy_vault.Operation.Fingerprint.{hmac_sha256}
use fursoy_vault.Audit.Hex.{
  mac_bytes, encode_hex, decode_mac, encode_hex-decode_mac, decode_mac-encode_hex,
}
use fursoy_vault.Audit.Lines.{IsLine}
use fursoy_vault.Audit.Chain.{
  audit_schema_version, AuditEntry, AuditAnchor, AuditCrates, Progress, unsigned_of, no_difference,
  names, differs, calculate_mac, verify_mac, verify_line,
}

-- What the crates promise: a digest has 32 bytes, and what serde_json writes is read back, in one line.
pub record AuditLaws (x : AuditCrates) : Type 0 where
  pub digest_width : (b : Bytes) → length (x.sha256 b) ≡ mac_bytes
  pub digest_bytes : (b : Bytes) → All IsByte (x.sha256 b)
  pub entry_again : (e : AuditEntry) (b : Bytes) → x.entry_json e ≡ ok b → x.entry_of_json b ≡ ok e
  pub entry-IsLine : (e : AuditEntry) (b : Bytes) → x.entry_json e ≡ ok b → IsLine b
  pub anchor_again :
      (a : AuditAnchor) (b : Bytes) → x.anchor_json a ≡ ok b → x.anchor_of_json b ≡ ok a

pub refused_not :
    (test : Bool) (e : FcpError) (a : Unit {0}) → refuse_if test e ≡ ok a → test ≡ false
refused_not true e a h = absurd (cc h)
refused_not false e a h = refl

pub not-false : (b : Bool) → not b ≡ false → b ≡ true
not-false true h = refl
not-false false h = sym h

no_difference→eq : (cs bs : Bytes) → length cs ≡ length bs → no_difference cs bs ≡ true → cs ≡ bs
unfolding no_difference
no_difference→eq [] [] e h = refl
no_difference→eq [] (b ∷ bs) e h = absurd (omega arith)
no_difference→eq (c ∷ cs) [] e h = absurd (omega arith)
no_difference→eq (c ∷ cs) (b ∷ bs) e h = ground (arith, no_difference→eq cs bs)

pub no_difference_refl : (bs : Bytes) → no_difference bs bs ≡ true
unfolding no_difference
no_difference_refl [] = refl
no_difference_refl (b ∷ bs) = ground (arith, no_difference_refl bs)

-- An entry that continues a chain: the next sequence, the code of the entry before, and its own code,
-- computed under the key.
pub record Continues (x : AuditCrates) (key : Bytes) (n : ℕ) (previous : Bytes) (e : AuditEntry)
    (mac : Bytes) : Type 0 where
  pub schema : e.schema_version ≡ audit_schema_version
  pub sequence : e.sequence ≡ n
  pub follows : e.previous_mac ≡ encode_hex previous
  pub code : e.mac ≡ encode_hex mac
  pub canonical : Bytes
  pub serialized : x.unsigned_json (unsigned_of e) ≡ ok canonical
  pub authentic : calculate_mac x key canonical ≡ ok mac

-- What a round that succeeds has done.
pub record Round (x : AuditCrates) (key : Bytes) (anchor : Option AuditAnchor) (p q : Progress)
    (line : Bytes) : Type 0 where
  pub entry : AuditEntry
  pub decoded : x.entry_of_json line ≡ ok entry
  pub continues : Continues x key p.expected_sequence p.previous_mac entry q.previous_mac
  pub agrees : (names anchor entry.sequence && differs anchor entry.mac) ≡ false
  pub next : q.expected_sequence ≡ p.expected_sequence + 1
  pub room : p.expected_sequence + 1 < u64_limit
  pub matched : q.anchor_matched ≡ (p.anchor_matched || names anchor entry.sequence)

abbrev pub progress_to : ℕ → Bytes → Bool → Progress
progress_to n mac matched = record {
  expected_sequence = n;
  previous_mac = mac;
  anchor_matched = matched;
}

module _ (x : AuditCrates) (laws : AuditLaws x) where
  pub calculate_mac-width :
      (key bytes mac : Bytes)
      → calculate_mac x key bytes ≡ ok mac
      → (length mac ≡ mac_bytes) × All IsByte mac
  unfolding calculate_mac hmac_sha256
  calculate_mac-width key bytes mac h =
      let (_, _, h) = >>=-eq-ok (refuse_if (ltb 64 (length key)) _) _ h in
      let e = ok-injective h in (rw (← e) (laws.digest_width _), rw (← e) (laws.digest_bytes _))

  verify_mac-ok :
      (key bytes mac : Bytes)
      → length mac ≡ mac_bytes
      → verify_mac x key bytes mac ≡ ok tt
      → calculate_mac x key bytes ≡ ok mac
  unfolding verify_mac
  verify_mac-ok key bytes mac w h =
      let (actual, c, h) = >>=-eq-ok (calculate_mac x key bytes) _ h in
      let same = not-false _ (refused_not (not (no_difference actual mac)) _ _ h) in
      let wide = (calculate_mac-width key bytes actual c).0 in
      c ∙ ap ok (no_difference→eq actual mac (wide ∙ sym w) same)

  ok-verify_mac :
      (key bytes mac : Bytes)
      → calculate_mac x key bytes ≡ ok mac
      → verify_mac x key bytes mac ≡ ok tt
  unfolding verify_mac
  ok-verify_mac key bytes mac c = rw (c, no_difference_refl mac) refl

  -- A round, from what its steps returned.
  Round-of :
      (key : Bytes) (anchor : Option AuditAnchor) (p q : Progress) (line : Bytes)
      (entry : AuditEntry) (canonical mac : Bytes) (next : ℕ)
      → x.entry_of_json line ≡ ok entry
      → (not (entry.schema_version == audit_schema_version)
          || not (entry.sequence == p.expected_sequence))
        ≡ false
      → not (bytes_eq entry.previous_mac (encode_hex p.previous_mac)) ≡ false
      → x.unsigned_json (unsigned_of entry) ≡ ok canonical
      → decode_mac entry.mac ≡ ok mac
      → verify_mac x key canonical mac ≡ ok tt
      → (names anchor entry.sequence && differs anchor entry.mac) ≡ false
      → ok_or (checked_suc p.expected_sequence) (format audit_sequence_overflow) ≡ ok next
      → progress_to next mac (p.anchor_matched || names anchor entry.sequence) ≡ q
      → Round x key anchor p q line
  Round-of key anchor p q line entry canonical mac next d s f c m v a n e =
      let (text, wide) = encode_hex-decode_mac entry.mac mac m in
      let same = ap (λ (z : Progress). z.previous_mac) e in
      record {
        entry = entry;
        decoded = d;
        continues = record {
          schema = ground arith;
          sequence = ground arith;
          follows = eqb→eq Bytes-discrete _ _ (not-false _ f);
          code = sym text ∙ ap encode_hex same;
          canonical = canonical;
          serialized = c;
          authentic = verify_mac-ok key canonical mac wide v ∙ ap ok same;
        };
        agrees = a;
        next = ground arith;
        room = ground arith;
        matched = sym (ap (λ (z : Progress). z.anchor_matched) e);
      }

  -- A round that succeeds.
  pub verify_line-Round :
      (key : Bytes) (anchor : Option AuditAnchor) (p q : Progress) (line : Bytes)
      → verify_line x key anchor p line ≡ ok q
      → Round x key anchor p q line
  unfolding verify_line
  verify_line-Round key anchor p q line h =
      let (entry, d, h) = >>=-eq-ok (x.entry_of_json line) _ h in
      let (_, s, h) =
        >>=-eq-ok
          (refuse_if
            (not (entry.schema_version == audit_schema_version)
              || not (entry.sequence == p.expected_sequence))
            _)
          _ h in
      let (_, f, h) =
        >>=-eq-ok (refuse_if (not (bytes_eq entry.previous_mac (encode_hex p.previous_mac))) _) _
          h in
      let (canonical, c, h) = >>=-eq-ok (x.unsigned_json (unsigned_of entry)) _ h in
      let (mac, m, h) = >>=-eq-ok (decode_mac entry.mac) _ h in
      let (_, v, h) = >>=-eq-ok (verify_mac x key canonical mac) _ h in
      let (_, a, h) =
        >>=-eq-ok (refuse_if (names anchor entry.sequence && differs anchor entry.mac) _) _ h in
      let (next, n, h) = >>=-eq-ok (ok_or (checked_suc p.expected_sequence) _) _ h in
      Round-of key anchor p q line entry canonical mac next d (refused_not _ _ _ s)
        (refused_not _ _ _ f) c m v (refused_not _ _ _ a) n (ok-injective h)

  -- An entry that continues the chain passes the round.
  pub Continues-verify_line :
      (key : Bytes) (anchor : Option AuditAnchor) (p : Progress) (line mac : Bytes) (e : AuditEntry)
      → x.entry_of_json line ≡ ok e
      → Continues x key p.expected_sequence p.previous_mac e mac
      → (names anchor e.sequence && differs anchor e.mac) ≡ false
      → p.expected_sequence + 1 < u64_limit
      → verify_line x key anchor p line
        ≡ ok (
            progress_to (p.expected_sequence + 1) mac (p.anchor_matched || names anchor e.sequence))
  unfolding verify_line
  Continues-verify_line key anchor p line mac e d c a r =
      let s : (not (e.schema_version == audit_schema_version)
            || not (e.sequence == p.expected_sequence))
          ≡ false =
        ground (arith, c.schema, c.sequence) in
      let f : bytes_eq e.previous_mac (encode_hex p.previous_mac) ≡ true =
        rw c.follows (eqb_refl Bytes-discrete _) in
      let n : ltb (p.expected_sequence + 1) u64_limit ≡ true = ground arith in
      let (w, b) = calculate_mac-width key c.canonical mac c.authentic in
      let m : decode_mac e.mac ≡ ok mac = rw c.code (decode_mac-encode_hex mac w b) in
      let v = ok-verify_mac key c.canonical mac c.authentic in
      rw (d, s, f, c.serialized, m, v, a, n) refl
