-- ===== src/Audit/Logger/Checks.antt =====
-- The checks of `verify_chain` on the lines of a log, and what one more entry changes.
use fursoy_vault.Prelude.{
  Bytes, bytes_eq, Bytes-discrete, eqb_refl, u64_limit, ℕ, ◌+◌, ◌-◌, ◌≤◌, ◌<◌, Bool, true, false,
  ◌&&◌, ◌||◌, Option, some, List, [], ◌∷◌, ◌++◌, ◌≡◌, refl, arith, ap, sym, ◌∙◌, not, ltb, leb,
}
use mathlib.Core.Path.{subst}
use fursoy_vault.Error.{FcpResult, ok, err, ◌>>=◌, >>=-eq-ok, ok-injective, refuse_if}
use fursoy_vault.Audit.Hex.{encode_hex}
use fursoy_vault.Audit.Chain.{
  audit_schema_version, AuditEntry, AuditAnchor, AuditCheckpoint, AuditCrates, Segment,
  VerifiedTail, Progress, names, differs, cut_off, checkpoint_sequence, checkpoint_mac,
  first_sequence, verify_line, verify_lines, verify_segments, tail_of, verify_chain,
}
use fursoy_vault.Audit.Chain.Linked.{
  AuditLaws, Continues, Round, progress_to, refused_not, verify_line-Round, Continues-verify_line,
}
use fursoy_vault.Audit.Chain.Authentic.{
  all_lines, AllWhole, IsChain-le, first_pos, verify_lines-append, verify_segments-lines,
  lines-verify_segments, verify_lines-Linked,
}

-- What the checks of `verify_chain` come to.
pub record Checked (x : AuditCrates) (key : Bytes) (anchor : AuditAnchor)
    (c : Option AuditCheckpoint) (ls : List Bytes) (t : VerifiedTail) : Type 0 where
  pub start : Bytes
  pub starts : checkpoint_mac c ≡ ok start
  pub end : Progress
  pub runs :
      verify_lines x key
        (some anchor)
        ls
        (progress_to (first_sequence c) start (leb anchor.sequence (checkpoint_sequence c)))
      ≡ ok end
  pub sequence : end.expected_sequence ≡ t.sequence + 1
  pub code : end.previous_mac ≡ t.mac
  pub reached : anchor.sequence ≤ t.sequence
  pub matched : end.anchor_matched ≡ true

or_true : (b : Bool) → (b || true) ≡ true
or_true true = refl
or_true false = refl

or_false : (b : Bool) → (b || false) ≡ b
or_false true = refl
or_false false = refl

same_progress :
    (n n' : ℕ) (mac : Bytes) (b b' : Bool)
    → n ≡ n'
    → b ≡ b'
    → progress_to n mac b ≡ progress_to n' mac b'
same_progress n n' mac b b' e f = cc

module _ (x : AuditCrates) (laws : AuditLaws x) (key : Bytes) where
  reanchored-Round :
      (anchor : Option AuditAnchor) (later : AuditAnchor) (p m : Progress) (l : Bytes) (b : Bool)
      → Round x key anchor p m l
      → p.expected_sequence < later.sequence
      → verify_line x key (some later) (record p { anchor_matched = b }) l
        ≡ ok (record m { anchor_matched = b })
  reanchored-Round anchor later p m l b r le =
      let n : names (some later) r.entry.sequence ≡ false = ground (arith, r.continues.sequence) in
      let free : (names (some later) r.entry.sequence && differs (some later) r.entry.mac) ≡ false =
        rw n refl in
      let kept : (b || names (some later) r.entry.sequence) ≡ b = rw n (or_false b) in
      Continues-verify_line x laws key (some later) (record p { anchor_matched = b }) l
        m.previous_mac r.entry r.decoded r.continues free r.room
      ∙ ap ok (same_progress _ _ _ _ _ (sym r.next) kept)

  -- The anchor may be exchanged for one that names a later entry.
  reanchored :
      (anchor : Option AuditAnchor) (later : AuditAnchor) (ls : List Bytes) (p q : Progress)
      (b : Bool)
      → verify_lines x key anchor ls p ≡ ok q
      → q.expected_sequence ≤ later.sequence
      → verify_lines x key (some later) ls (record p { anchor_matched = b })
        ≡ ok (record q { anchor_matched = b })
  unfolding verify_lines
  reanchored anchor later [] p q b h le =
      ap (λ (z : FcpResult Progress). z >>= λ p. ok (record p { anchor_matched = b })) h
  reanchored anchor later (l ∷ ls) p q b h le =
      let (m, r, h) = >>=-eq-ok (verify_line x key anchor p l) _ h in
      let k = verify_lines-Linked x laws key anchor ls m q h in
      let above = IsChain-le x key _ _ _ _ _ k.chain in
      let round = verify_line-Round x laws key anchor p m l r in
      rw (reanchored-Round anchor later p m l b round (omega (arith, round.next)))
        (reanchored anchor later ls m q b h le)

  verify_lines_one :
      (anchor : Option AuditAnchor) (p : Progress) (l : Bytes)
      → verify_lines x key anchor (l ∷ []) p ≡ verify_line x key anchor p l
  unfolding verify_lines
  verify_lines_one anchor p l = same (verify_line x key anchor p l)
    where
      same : (r : FcpResult Progress) → (r >>= λ q. ok q) ≡ r
      same (ok q) = refl
      same (err e) = refl

  module _ (c : Option AuditCheckpoint) where
    pub verify_chain-Checked :
        (anchor : AuditAnchor) (ss : List Segment) (t : VerifiedTail)
        → verify_chain x key (some anchor) c ss ≡ ok t
        → Checked x key anchor c (all_lines ss) t × AllWhole ss
    unfolding verify_chain tail_of
    verify_chain-Checked anchor ss t h =
        let (start, s, h) = >>=-eq-ok (checkpoint_mac c) _ h in
        let (q, v, h) = >>=-eq-ok (verify_segments x key (some anchor) ss _) _ h in
        let (_, f, h) =
          >>=-eq-ok (refuse_if (cut_off (some anchor) (q.expected_sequence - 1) q.anchor_matched) _)
            _ h in
        let (l, w) = verify_segments-lines x laws key (some anchor) ss _ q v in
        (checked start q s l (refused_not _ _ _ f) (ok-injective h), w)
      where
        checked :
            (start : Bytes) (q : Progress)
            → checkpoint_mac c ≡ ok start
            → verify_lines x key
                (some anchor)
                (all_lines ss)
                (progress_to (first_sequence c) start (leb anchor.sequence (checkpoint_sequence c)))
              ≡ ok q
            → (ltb (q.expected_sequence - 1) anchor.sequence || not q.anchor_matched) ≡ false
            → record { sequence = q.expected_sequence - 1; mac = q.previous_mac } ≡ t
            → Checked x key anchor c (all_lines ss) t
        checked start q s l f e =
            let k = verify_lines-Linked x laws key (some anchor) (all_lines ss) _ q l in
            let above = IsChain-le x key _ _ _ _ _ k.chain in
            let first = first_pos c in
            let n = ap (λ (z : VerifiedTail). z.sequence) e in
            record {
              start = start;
              starts = s;
              end = q;
              runs = l;
              sequence = omega arith;
              code = ap (λ (z : VerifiedTail). z.mac) e;
              reached = ground arith;
              matched = ground arith;
            }

    pub Checked-verify_chain :
        (anchor : AuditAnchor) (ss : List Segment) (t : VerifiedTail)
        → Checked x key anchor c (all_lines ss) t
        → AllWhole ss
        → verify_chain x key (some anchor) c ss ≡ ok t
    unfolding verify_chain tail_of
    Checked-verify_chain anchor ss t k w =
        let v = lines-verify_segments x laws key (some anchor) ss _ k.end k.runs w in
        let f : (ltb (k.end.expected_sequence - 1) anchor.sequence || not k.end.anchor_matched)
            ≡ false =
          ground (arith, k.sequence, k.reached, k.matched) in
        let n : k.end.expected_sequence - 1 ≡ t.sequence = omega (arith, k.sequence) in
        rw (k.starts, v, f, n, k.code) refl

    module _ (anchor : AuditAnchor) (ls : List Bytes) (t : VerifiedTail) (l mac : Bytes)
        (e : AuditEntry) (k : Checked x key anchor c ls t) (d : x.entry_of_json l ≡ ok e)
        (n : Continues x key (t.sequence + 1) t.mac e mac) (room : t.sequence + 2 < u64_limit) where
      Continues-end : Continues x key k.end.expected_sequence k.end.previous_mac e mac
      Continues-end =
          subst (λ i. Continues x key i k.end.previous_mac e mac) (sym k.sequence)
            (subst (λ m. Continues x key (t.sequence + 1) m e mac) (sym k.code) n)

      -- One more entry under the same anchor.
      pub Checked-append :
          Checked x key anchor c (ls ++ l ∷ []) (record { sequence = t.sequence + 1; mac = mac })
      Checked-append =
          let free : names (some anchor) e.sequence ≡ false =
            ground (arith, n.sequence, k.reached) in
          let agrees : (names (some anchor) e.sequence && differs (some anchor) e.mac) ≡ false =
            rw free refl in
          let fits : k.end.expected_sequence + 1 < u64_limit = omega (arith, k.sequence) in
          let last =
            Continues-verify_line x laws key (some anchor) k.end l mac e d Continues-end agrees
              fits in
          record {
            start = k.start;
            starts = k.starts;
            end =
                progress_to (k.end.expected_sequence + 1) mac
                  (k.end.anchor_matched || names (some anchor) e.sequence);
            runs =
                rw (verify_lines-append x laws key (some anchor) ls (l ∷ []) _, k.runs)
                  (verify_lines_one (some anchor) k.end l ∙ last);
            sequence = omega (arith, k.sequence);
            code = refl;
            reached = omega (arith, k.reached);
            matched = rw k.matched refl;
          }

      abbrev next_anchor : AuditAnchor
      next_anchor = record {
        schema_version = audit_schema_version;
        sequence = t.sequence + 1;
        mac = encode_hex mac;
      }

      -- One more entry, under an anchor that names it.
      pub Checked-append_anchored :
          Checked x key
            (record {
              schema_version = audit_schema_version;
              sequence = t.sequence + 1;
              mac = encode_hex mac;
            })
            c
            (ls ++ l ∷ [])
            (record { sequence = t.sequence + 1; mac = mac })
      Checked-append_anchored =
          let named : names (some next_anchor) e.sequence ≡ true = ground (arith, n.sequence) in
          let same : bytes_eq (encode_hex mac) e.mac ≡ true =
            rw n.code (eqb_refl Bytes-discrete (encode_hex mac)) in
          let agrees : (names (some next_anchor) e.sequence && differs (some next_anchor) e.mac)
              ≡ false =
            rw (named, same) refl in
          let fits : k.end.expected_sequence + 1 < u64_limit = omega (arith, k.sequence) in
          let b = leb (t.sequence + 1) (checkpoint_sequence c) in
          let before =
            reanchored (some anchor) next_anchor ls _ k.end b k.runs (omega (arith, k.sequence)) in
          let last =
            Continues-verify_line x laws key (some next_anchor)
              (record k.end { anchor_matched = b }) l mac e d Continues-end agrees fits in
          record {
            start = k.start;
            starts = k.starts;
            end =
                progress_to (k.end.expected_sequence + 1) mac
                  (b || names (some next_anchor) e.sequence);
            runs =
                rw (verify_lines-append x laws key (some next_anchor) ls (l ∷ []) _, before)
                  (verify_lines_one (some next_anchor) (record k.end { anchor_matched = b }) l
                    ∙ last);
            sequence = omega (arith, k.sequence);
            code = refl;
            reached = omega arith;
            matched = rw named (or_true b);
          }
