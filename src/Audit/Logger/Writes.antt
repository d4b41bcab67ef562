-- ===== src/Audit/Logger/Writes.antt =====
-- The line of an entry, and what the anchor that follows it leaves for an opening.
use fursoy_vault.Prelude.{
  Bytes, bytes_eq, Bytes-discrete, checked_suc, ℕ, ◌+◌, ◌/◌, Bool, true, false, Option, none, some,
  [], ◌∷◌, ◌++◌, ◌≡◌, ◌⊎◌, inl, inr, refl, arith, ap, sym, ◌∙◌, not, ◌==◌, All, eqb→eq, length,
  IsByte, Option-cases,
}
use mathlib.Core.Path.{subst}
use fursoy_vault.Error.{
  ok, ◌>>◌, >>=-eq-ok, ok-injective, refuse_if, ok_or, format, FcpResult-cases,
  audit_sequence_overflow, audit_anchor_missing,
}
use fursoy_vault.AtomicFile.{FileState, Faults, next_faults, write_verified, stored_bytes}
use fursoy_vault.AtomicFile.Outcomes.{write_verified_result}
use fursoy_vault.Audit.Hex.{mac_bytes, encode_hex, decode_mac-encode_hex}
use fursoy_vault.Audit.Lines.{newline}
use fursoy_vault.Audit.Chain.{
  audit_schema_version, AuditAnchor, AuditCheckpoint, AuditCrates, calculate_mac,
}
use fursoy_vault.Audit.Chain.Linked.{AuditLaws, refused_not, not-false}
use fursoy_vault.Audit.Logger.{
  day_ms, AuditHost, AuditLogger, AuditEvent, PreparedLine, verify_protected,
  persist_protected_file, persist_anchor, unsigned_entry, signed_entry, prepare_line, load_anchor,
  load_checkpoint,
}

-- What a line is made of.
pub record Prepared (x : AuditCrates) (now : ℕ) (e : AuditEvent) (l : AuditLogger)
    (p : PreparedLine) : Type 0 where
  pub number : p.sequence ≡ l.sequence + 1
  pub canonical : Bytes
  pub serialized : x.unsigned_json (unsigned_entry x (l.sequence + 1) now e l) ≡ ok canonical
  pub authentic : calculate_mac x l.key canonical ≡ ok p.mac
  pub text : Bytes
  pub written :
      x.entry_json (signed_entry x (unsigned_entry x (l.sequence + 1) now e l) p.mac) ≡ ok text
  pub line : p.line ≡ text ++ newline ∷ []
  pub day : p.day ≡ now / day_ms

module _ (x : AuditCrates) where
  pub prepare_line-Prepared :
      (now : ℕ) (e : AuditEvent) (l : AuditLogger) (p : PreparedLine)
      → prepare_line x (ok now) e l ≡ ok p
      → Prepared x now e l p
  unfolding prepare_line
  prepare_line-Prepared now e l p h =
      let (n, s, h) =
        >>=-eq-ok (ok_or (checked_suc l.sequence) (format audit_sequence_overflow)) _ h in
      let number : l.sequence + 1 ≡ n = ground arith in
      let (canonical, c, h) = >>=-eq-ok (x.unsigned_json (unsigned_entry x n now e l)) _ h in
      let (mac, m, h) = >>=-eq-ok (calculate_mac x l.key canonical) _ h in
      let (text, t, h) =
        >>=-eq-ok (x.entry_json (signed_entry x (unsigned_entry x n now e l) mac)) _ h in
      prepared n canonical mac text number c m t (ok-injective h)
    where
      prepared :
          (n : ℕ) (canonical mac text : Bytes)
          → l.sequence + 1 ≡ n
          → x.unsigned_json (unsigned_entry x n now e l) ≡ ok canonical
          → calculate_mac x l.key canonical ≡ ok mac
          → x.entry_json (signed_entry x (unsigned_entry x n now e l) mac) ≡ ok text
          → record { sequence = n; day = now / day_ms; mac = mac; line = text ++ (newline ∷ []) }
            ≡ p
          → Prepared x now e l p
      prepared n canonical mac text number c m t h = subst (Prepared x now e l) h (record {
        number = sym number;
        canonical = canonical;
        serialized = rw number c;
        authentic = m;
        text = text;
        written = rw number t;
        line = refl;
        day = refl;
      })

  -- What a write of the anchor leaves, whatever it returns.
  pub record AnchorWritten (n : ℕ) (mac : Bytes) (h h' : AuditHost) : Type 0 where
    pub segments : h'.segments ≡ h.segments
    pub checkpoint : h'.checkpoint_file ≡ h.checkpoint_file
    pub file :
        (h'.anchor_file.target ≡ h.anchor_file.target)
        ⊎ ((b : Bytes) × (plaintext : Bytes) × (h'.anchor_file.target ≡ some b)
            × (x.unprotect b ≡ ok plaintext)
            × (x.anchor_json (record {
              schema_version = audit_schema_version;
              sequence = n;
              mac = encode_hex mac;
            })
                ≡ ok plaintext))

  verify_protected-ok :
      (plaintext b : Bytes) → verify_protected x plaintext b ≡ ok tt → x.unprotect b ≡ ok plaintext
  verify_protected-ok plaintext b h =
      let (r, u, h) = >>=-eq-ok (x.unprotect b) (λ r. refuse_if (not (bytes_eq r plaintext)) _) h in
      u ∙ ap ok (eqb→eq Bytes-discrete r plaintext (not-false _ (refused_not _ _ _ h)))

  protected_file :
      (f : Faults) (plaintext : Bytes) (file : FileState)
      → ((persist_protected_file x f plaintext file).1.target ≡ file.target)
        ⊎ ((b : Bytes) × ((persist_protected_file x f plaintext file).1.target ≡ some b)
            × (x.unprotect b ≡ ok plaintext))
  unfolding persist_protected_file
  protected_file f plaintext file = elim (FcpResult-cases (x.protect plaintext)) [
    | inr (e, t) ↦ rw (t, persist_protected_file) (inl refl)
    | inl (p, t) ↦ rw (t, persist_protected_file) (cases p)
  ]
    where
      cases :
          (p : Bytes)
          → ((write_verified f p (verify_protected x plaintext) file).1.target ≡ file.target)
            ⊎ ((b : Bytes) × ((write_verified f p (verify_protected x plaintext) file).1.target
                  ≡ some b)
                × (x.unprotect b ≡ ok plaintext))
      cases p = elim (write_verified_result f p (verify_protected x plaintext) file) [
        | inl (_, t, v) ↦ inr (stored_bytes f p, t, verify_protected-ok plaintext _ v)
        | inr (_, _, inl t) ↦ inl t
        | inr (_, _, inr (t, v)) ↦ inr (stored_bytes f p, t, verify_protected-ok plaintext _ v)
      ]

  abbrev pub anchor_for : ℕ → Bytes → AuditAnchor
  anchor_for n mac = record {
    schema_version = audit_schema_version;
    sequence = n;
    mac = encode_hex mac;
  }

  pub persist_anchor-Written :
      (n : ℕ) (mac : Bytes) (h : AuditHost) → AnchorWritten n mac h (persist_anchor x n mac h).1
  unfolding persist_anchor
  persist_anchor-Written n mac h = elim (FcpResult-cases (x.anchor_json (anchor_for n mac))) [
    | inr (e, t) ↦
        rw (t, persist_anchor) (record { segments = refl; checkpoint = refl; file = inl refl })
    | inl (plaintext, t) ↦
        rw (t, persist_anchor)
          (record { segments = refl; checkpoint = refl; file = found plaintext t })
  ]
    where
      found :
          (plaintext : Bytes)
          → x.anchor_json (anchor_for n mac) ≡ ok plaintext
          → ((persist_protected_file x (next_faults h.faults) plaintext h.anchor_file).1.target
              ≡ h.anchor_file.target)
            ⊎ ((b : Bytes) × (p : Bytes) × ((persist_protected_file x
                    (next_faults h.faults)
                    plaintext
                    h.anchor_file).1.target
                  ≡ some b)
                × (x.unprotect b ≡ ok p)
                × (x.anchor_json (anchor_for n mac) ≡ ok p))
      found plaintext t = elim (protected_file (next_faults h.faults) plaintext h.anchor_file) [
        | inl e ↦ inl e
        | inr (b, e, u) ↦ inr (b, plaintext, e, u, t)
      ]

  -- The anchor is read from its file alone.
  pub load_anchor-same :
      (h h' : AuditHost) (a : AuditAnchor)
      → h'.anchor_file.target ≡ h.anchor_file.target
      → load_anchor x none h ≡ ok (some a)
      → load_anchor x none h' ≡ ok (some a)
  unfolding load_anchor
  load_anchor-same h h' a e l = elim (Option-cases h.anchor_file.target) [
    | inl t ↦ absurd (missing (length h.segments == 0) (rw (t, load_anchor) at l))
    | inr (b, t) ↦
        let e' : h'.anchor_file.target ≡ some b = e ∙ t in
        rw (e', load_anchor) (rw (t, load_anchor) at l)
  ]
    where
      missing :
          (b : Bool)
          → (refuse_if (not b) (format audit_anchor_missing) >> ok none) ≡ ok (some a)
          → ⊥
      missing true h = cc
      missing false h = cc

  pub load_anchor-written :
      (laws : AuditLaws x) (h : AuditHost) (n : ℕ) (mac b plaintext : Bytes)
      → length mac ≡ mac_bytes
      → All IsByte mac
      → h.anchor_file.target ≡ some b
      → x.unprotect b ≡ ok plaintext
      → x.anchor_json (anchor_for n mac) ≡ ok plaintext
      → load_anchor x none h ≡ ok (some (anchor_for n mac))
  unfolding load_anchor
  load_anchor-written laws h n mac b plaintext w i t u j =
      rw
        (
          t,
          load_anchor,
          u,
          laws.anchor_again (anchor_for n mac) plaintext j,
          decode_mac-encode_hex mac w i,
        )
        refl

  pub load_checkpoint-same :
      (h h' : AuditHost) (c : Option AuditCheckpoint)
      → h'.checkpoint_file ≡ h.checkpoint_file
      → load_checkpoint x none h ≡ ok c
      → load_checkpoint x none h' ≡ ok c
  unfolding load_checkpoint
  load_checkpoint-same h h' c e l = rw e l
