-- ===== src/Audit/Chain/Authentic.antt =====
-- What a chain that is accepted is: entries that continue one another from the checkpoint, up to and
-- past the anchor.
use fursoy_vault.Prelude.{
  Bytes, ℕ, ◌+◌, ◌-◌, ◌≤◌, Bool, true, false, ◌&&◌, ◌||◌, Option, none, some, List, [], ◌∷◌, ◌++◌,
  ◌≡◌, ◌⊎◌, inl, inr, refl, arith, ap, sym, ◌∙◌, not, ◌==◌, All, bytes_eq, Bytes-discrete, eqb→eq,
}
use mathlib.Core.Path.{subst}
use fursoy_vault.Error.{FcpResult, ok, ◌>>=◌, >>=-eq-ok, ok-injective, refuse_if, FcpResult-cases}
use fursoy_vault.Audit.Lines.{lines_of, is_whole}
use fursoy_vault.Audit.Chain.{
  AuditEntry, AuditAnchor, AuditCheckpoint, AuditCrates, Segment, VerifiedTail, Progress, names,
  differs, within, cut_off, checkpoint_sequence, checkpoint_mac, first_sequence, verify_line,
  verify_lines, verify_segments, tail_of, verify_chain,
}
use fursoy_vault.Audit.Chain.Linked.{
  AuditLaws, Continues, Round, refused_not, not-false, verify_line-Round,
}

-- The lines of all files, in order.
abbrev pub all_lines : List Segment → List Bytes
all_lines [] = []
all_lines (s ∷ ss) = lines_of s.bytes ++ all_lines ss

abbrev pub AllWhole : List Segment → Type 0
AllWhole = All (λ (s : Segment). is_whole s.bytes ≡ true)

module _ (x : AuditCrates) where
  abbrev pub decode_all : List Bytes → FcpResult (List AuditEntry)
  decode_all [] = ok []
  decode_all (l ∷ ls) = do e ← x.entry_of_json l; es ← decode_all ls; ok (e ∷ es)

  -- Entries with the sequences from n on, each bound to the code of the one before and authentic under
  -- the key; n' and m' are the next sequence and the last code.
  abbrev pub IsChain : Bytes → ℕ → Bytes → List AuditEntry → ℕ → Bytes → Type 0
  IsChain key n m [] n' m' = (n ≡ n') × (m ≡ m')
  IsChain key n m (e ∷ es) n' m' =
      (mac : Bytes) × Continues x key n m e mac × IsChain key (n + 1) mac es n' m'

-- The entry that the anchor names.
abbrev pub Holds : AuditAnchor → List AuditEntry → Type 0
Holds a [] = ⊥
Holds a (e ∷ es) = ((e.sequence ≡ a.sequence) × (e.mac ≡ a.mac)) ⊎ Holds a es

-- The chain reaches the anchor: it is covered by the checkpoint, or it stands among the entries.
abbrev pub Anchored :
    Option AuditAnchor → Option AuditCheckpoint → List AuditEntry → VerifiedTail → Type 0
Anchored none c es t = Unit {0}
Anchored (some a) c es t =
    (a.sequence ≤ t.sequence) × ((a.sequence ≤ checkpoint_sequence c) ⊎ Holds a es)

abbrev Met : Option AuditAnchor → Bool → List AuditEntry → Bool → Type 0
Met none before es after = Unit {0}
Met (some a) before es after = (after ≡ false) ⊎ ((before ≡ true) ⊎ Holds a es)

Met-next :
    (anchor : Option AuditAnchor) (before mid after : Bool) (e : AuditEntry) (es : List AuditEntry)
    → (names anchor e.sequence && differs anchor e.mac) ≡ false
    → mid ≡ (before || names anchor e.sequence)
    → Met anchor mid es after
    → Met anchor before (e ∷ es) after
Met-next none before mid after e es g m h = tt
Met-next (some a) before mid after e es g m (inl f) = inl f
Met-next (some a) true mid after e es g m (inr h) = inr (inl refl)
Met-next (some a) false mid after e es g m (inr (inr h)) = inr (inr (inr h))
Met-next (some a) false mid after e es g m (inr (inl t)) =
    let n : (a.sequence == e.sequence) ≡ true = sym m ∙ t in
    let d : not (bytes_eq a.mac e.mac) ≡ false = rw n at g in
    inr (inr (inl (ground arith, sym (eqb→eq Bytes-discrete a.mac e.mac (not-false _ d)))))

module _ (x : AuditCrates) (laws : AuditLaws x) (key : Bytes) (anchor : Option AuditAnchor) where
  -- What lines that are accepted are.
  pub record Linked (ls : List Bytes) (p q : Progress) : Type 0 where
    pub entries : List AuditEntry
    pub decoded : decode_all x ls ≡ ok entries
    pub chain :
        IsChain x key p.expected_sequence p.previous_mac entries q.expected_sequence q.previous_mac
    pub met : Met anchor p.anchor_matched entries q.anchor_matched

  pub verify_lines-append :
      (ls ms : List Bytes) (p : Progress)
      → verify_lines x key anchor (ls ++ ms) p
        ≡ (verify_lines x key anchor ls p >>= verify_lines x key anchor ms)
  unfolding verify_lines
  verify_lines-append [] ms p = refl
  verify_lines-append (l ∷ ls) ms p = elim (FcpResult-cases (verify_line x key anchor p l)) [
    | inl (q, e) ↦ rw e (verify_lines-append ls ms q)
    | inr (f, e) ↦ rw e refl
  ]

  -- The files are read as the lines of all of them.
  pub verify_segments-lines :
      (ss : List Segment) (p q : Progress)
      → verify_segments x key anchor ss p ≡ ok q
      → (verify_lines x key anchor (all_lines ss) p ≡ ok q) × AllWhole ss
  unfolding verify_segments verify_lines
  verify_segments-lines [] p q h = (h, tt)
  verify_segments-lines (s ∷ ss) p q h =
      let (_, w, h) = >>=-eq-ok (refuse_if (not (is_whole s.bytes)) _) _ h in
      let (m, l, h) = >>=-eq-ok (verify_lines x key anchor (lines_of s.bytes) p) _ h in
      let (r, ws) = verify_segments-lines ss m q h in
      (
        rw (verify_lines-append (lines_of s.bytes) (all_lines ss) p, l) r,
        (not-false _ (refused_not _ _ _ w), ws),
      )

  pub lines-verify_segments :
      (ss : List Segment) (p q : Progress)
      → verify_lines x key anchor (all_lines ss) p ≡ ok q
      → AllWhole ss
      → verify_segments x key anchor ss p ≡ ok q
  unfolding verify_segments verify_lines
  lines-verify_segments [] p q h w = h
  lines-verify_segments (s ∷ ss) p q h (w, ws) =
      let (m, l, h) =
        >>=-eq-ok (verify_lines x key anchor (lines_of s.bytes) p) _
          (rw (verify_lines-append (lines_of s.bytes) (all_lines ss) p) at h) in
      rw (w, l) (lines-verify_segments ss m q h ws)

  Met-end : (b c : Bool) → b ≡ c → Met anchor b [] c
  Met-end b c e = at anchor c e
    where
      at : (a : Option AuditAnchor) (c : Bool) → b ≡ c → Met a b [] c
      at none c e = tt
      at (some a) true e = inr (inl e)
      at (some a) false e = inl refl

  chain_cons :
      (l : Bytes) (ls : List Bytes) (p m q : Progress)
      → Round x key anchor p m l
      → Linked ls m q
      → Linked (l ∷ ls) p q
  chain_cons l ls p m q r k = record {
    entries = r.entry ∷ k.entries;
    decoded = rw (r.decoded, k.decoded) refl;
    chain = (
      m.previous_mac,
      r.continues,
      subst (λ n. IsChain x key n m.previous_mac k.entries q.expected_sequence q.previous_mac)
          r.next k.chain,
    );
    met =
        Met-next anchor p.anchor_matched m.anchor_matched q.anchor_matched r.entry k.entries
          r.agrees r.matched k.met;
  }

  pub verify_lines-Linked :
      (ls : List Bytes) (p q : Progress) → verify_lines x key anchor ls p ≡ ok q → Linked ls p q
  unfolding verify_lines
  verify_lines-Linked [] p q h =
      let e = ok-injective h in
      record {
        entries = [];
        decoded = refl;
        chain =
            (ap (λ (z : Progress). z.expected_sequence) e, ap (λ (z : Progress). z.previous_mac) e);
        met = Met-end p.anchor_matched q.anchor_matched (ap (λ (z : Progress). z.anchor_matched) e);
      }
  verify_lines-Linked (l ∷ ls) p q h =
      let (m, r, h) = >>=-eq-ok (verify_line x key anchor p l) _ h in
      chain_cons l ls p m q (verify_line-Round x laws key anchor p m l r)
        (verify_lines-Linked ls m q h)

pub IsChain-le :
    (x : AuditCrates) (key : Bytes) (n : ℕ) (m : Bytes) (es : List AuditEntry) (n' : ℕ) (m' : Bytes)
    → IsChain x key n m es n' m'
    → n ≤ n'
IsChain-le x key n m [] n' m' h = omega (arith, h.0)
IsChain-le x key n m (e ∷ es) n' m' (mac, c, h) =
    omega (arith, IsChain-le x key (n + 1) mac es n' m' h)

pub first_pos : (c : Option AuditCheckpoint) → 1 ≤ first_sequence c
first_pos none = omega arith
first_pos (some c) = ground arith

Anchored-of :
    (anchor : Option AuditAnchor) (c : Option AuditCheckpoint) (es : List AuditEntry) (n : ℕ)
    (matched : Bool) (mac : Bytes)
    → cut_off anchor n matched ≡ false
    → Met anchor (within anchor (checkpoint_sequence c)) es matched
    → Anchored anchor c es (record { sequence = n; mac = mac })
Anchored-of none c es n matched mac h m = tt
Anchored-of (some a) c es n true mac h (inl f) = absurd (cc f)
Anchored-of (some a) c es n false mac h m = absurd (ground arith)
Anchored-of (some a) c es n true mac h (inr (inl t)) = (ground arith, inl (ground arith))
Anchored-of (some a) c es n true mac h (inr (inr k)) = (ground arith, inr k)

abbrev pub IsAuthentic :
    AuditCrates
    → Bytes
    → Option AuditAnchor
    → Option AuditCheckpoint
    → List Segment
    → VerifiedTail
    → Type 0
IsAuthentic x key anchor checkpoint segments t =
    (start : Bytes) × (es : List AuditEntry) × AllWhole segments
    × (checkpoint_mac checkpoint ≡ ok start)
    × (decode_all x (all_lines segments) ≡ ok es)
    × IsChain x key (first_sequence checkpoint) start es (t.sequence + 1) t.mac
    × Anchored anchor checkpoint es t

-- A log that is accepted is authentic: every file ends with a whole line, the lines are entries that
-- number on from the checkpoint without a gap, each bound to the code of the one before and with its
-- own code under the key, up to the tail that is returned; and the anchor is reached, so that no entry
-- up to it was cut off.
pub verify_chain-Authentic :
    (x : AuditCrates)
    → AuditLaws x
    → (key : Bytes) (anchor : Option AuditAnchor) (checkpoint : Option AuditCheckpoint)
      (segments : List Segment) (t : VerifiedTail)
    → verify_chain x key anchor checkpoint segments ≡ ok t
    → IsAuthentic x key anchor checkpoint segments t
unfolding verify_chain tail_of
verify_chain-Authentic x laws key anchor checkpoint segments t h =
    let (start, c, h) = >>=-eq-ok (checkpoint_mac checkpoint) _ h in
    let (q, v, h) = >>=-eq-ok (verify_segments x key anchor segments _) _ h in
    let (_, f, h) =
      >>=-eq-ok (refuse_if (cut_off anchor (q.expected_sequence - 1) q.anchor_matched) _) _ h in
    let (l, w) = verify_segments-lines x laws key anchor segments _ q v in
    authentic start q w c (verify_lines-Linked x laws key anchor (all_lines segments) _ q l)
      (refused_not _ _ _ f) (ok-injective h)
  where
    authentic :
        (start : Bytes) (q : Progress)
        → AllWhole segments
        → checkpoint_mac checkpoint ≡ ok start
        → Linked x laws key anchor
            (all_lines segments)
            (record {
              expected_sequence = first_sequence checkpoint;
              previous_mac = start;
              anchor_matched = within anchor (checkpoint_sequence checkpoint);
            })
            q
        → cut_off anchor (q.expected_sequence - 1) q.anchor_matched ≡ false
        → record { sequence = q.expected_sequence - 1; mac = q.previous_mac } ≡ t
        → IsAuthentic x key anchor checkpoint segments t
    authentic start q w c k f e =
        let above = IsChain-le x key _ _ _ _ _ k.chain in
        let first = first_pos checkpoint in
        let n : q.expected_sequence ≡ q.expected_sequence - 1 + 1 = omega arith in
        let chain =
          subst (λ i. IsChain x key (first_sequence checkpoint) start k.entries i q.previous_mac) n
            k.chain in
        subst (IsAuthentic x key anchor checkpoint segments) e (
          start,
          k.entries,
          w,
          c,
          k.decoded,
          chain,
          Anchored-of anchor checkpoint k.entries (q.expected_sequence - 1) q.anchor_matched
              q.previous_mac f k.met,
        )
