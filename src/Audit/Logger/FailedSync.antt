-- ===== src/Audit/Logger/FailedSync.antt =====
-- An append whose line was written while `sync_data` failed: the file is ahead of the memory.
use fursoy_vault.Prelude.{
  Bytes, ℕ, ◌+◌, ◌/◌, ◌≤◌, Option, none, some, List, [], ◌∷◌, ◌++◌, ◌≡◌, ◌≢◌, inl, inr, refl, arith,
  ap, sym, ◌∙◌, Option-cases,
}
use mathlib.Core.Path.{subst}
use mathlib.Core.List.{append_assoc}
use fursoy_vault.Error.{FcpError, FcpResult, ok, err, >>=-eq-ok, ok-injective, FcpResult-cases}
use fursoy_vault.Audit.Chain.{
  AuditEntry, AuditAnchor, AuditCheckpoint, AuditCrates, Segment, VerifiedTail, verify_chain,
}
use fursoy_vault.Audit.Chain.Linked.{AuditLaws}
use fursoy_vault.Audit.Chain.Authentic.{
  all_lines, AllWhole, decode_all, IsChain, verify_chain-Authentic,
}
use fursoy_vault.Audit.Logger.{
  day_ms, AuditLogger, AuditEvent, Appending, PreparedLine, append_to, append_line, unsigned_entry,
  signed_entry, prepare_line, record_inner, appended,
}
use fursoy_vault.Audit.Logger.Extends.{DaysUpTo, append_to-last, append_to-DaysUpTo, days_later}
use fursoy_vault.Audit.Logger.Writes.{Prepared, prepare_line-Prepared, persist_anchor-Written}
use fursoy_vault.Audit.Logger.Reopens.{entry_event}

-- Two entries in a row have different sequences.
not_twice :
    (x : AuditCrates) (key : Bytes) (n : ℕ) (m : Bytes) (ls : List Bytes) (a b : Bytes)
    (e f : AuditEntry) (es : List AuditEntry) (n' : ℕ) (m' : Bytes)
    → x.entry_of_json a ≡ ok e
    → x.entry_of_json b ≡ ok f
    → decode_all x (ls ++ a ∷ b ∷ []) ≡ ok es
    → IsChain x key n m es n' m'
    → f.sequence ≡ e.sequence + 1
not_twice x key n m [] a b e f es n' m' p q d c =
    let same : e ∷ f ∷ [] ≡ es = ok-injective (rw (p, q) at d) in
    let (_, first, (_, second, _)) = subst (λ z. IsChain x key n m z n' m') (sym same) c in
    omega (arith, first.sequence, second.sequence)
not_twice x key n m (l ∷ ls) a b e f es n' m' p q d c =
    let (_, _, d) = >>=-eq-ok (x.entry_of_json l) _ d in
    let (rest, k, d) = >>=-eq-ok (decode_all x (ls ++ a ∷ b ∷ [])) _ d in
    let (mac, _, tail) = subst (λ z. IsChain x key n m z n' m') (sym (ok-injective d)) c in
    not_twice x key (n + 1) mac ls a b e f rest n' m' p q k tail

module _ (x : AuditCrates) (laws : AuditLaws x) where
  -- No key, anchor or checkpoint makes a log acceptable that has two entries in a row with one sequence.
  never_accepted :
      (segments : List Segment) (ls : List Bytes) (a b : Bytes) (e f : AuditEntry)
      → all_lines segments ≡ ls ++ a ∷ b ∷ []
      → x.entry_of_json a ≡ ok e
      → x.entry_of_json b ≡ ok f
      → e.sequence ≡ f.sequence
      → (key : Bytes) (anchor : Option AuditAnchor) (checkpoint : Option AuditCheckpoint)
        (t : VerifiedTail)
      → verify_chain x key anchor checkpoint segments ≢ ok t
  never_accepted segments ls a b e f lines p q same key anchor checkpoint t h =
      let (start, es, _, _, d, c, _) =
        verify_chain-Authentic x laws key anchor checkpoint segments t h in
      let next =
        not_twice x key _ start ls a b e f es _ _ p q (subst (λ z. decode_all x z ≡ ok es) lines d)
          c in
      omega (arith, same)

  -- The line that a call has put behind the log.
  pub record Behind (now : ℕ) (e : AuditEvent) (l : AuditLogger) (before after : List Segment)
      : Type 0 where
    pub line : Bytes
    pub entry : AuditEntry
    pub lines : all_lines after ≡ all_lines before ++ line ∷ []
    pub decoded : x.entry_of_json line ≡ ok entry
    pub number : entry.sequence ≡ l.sequence + 1
    pub told : entry_event entry ≡ e
    pub whole : AllWhole after
    pub days : DaysUpTo (now / day_ms) after

  behind :
      (now : ℕ) (e : AuditEvent) (l : AuditLogger) (p : PreparedLine) (ss : List Segment)
      → Prepared x now e l p
      → DaysUpTo (now / day_ms) ss
      → AllWhole ss
      → Behind now e l ss (append_to p.day p.line ss)
  behind now e l p ss made days whole =
      let (lines, whole') =
        append_to-last (now / day_ms) made.text ss days whole
          (laws.entry-IsLine _ _ made.written) in
      rw (made.line, made.day)
        (record {
          line = made.text;
          entry = signed_entry x (unsigned_entry x (l.sequence + 1) now e l) p.mac;
          lines = lines;
          decoded = laws.entry_again _ _ made.written;
          number = refl;
          told = refl;
          whole = whole';
          days = append_to-DaysUpTo (now / day_ms) _ ss days;
        })

  -- A call that returns has appended its line.
  pub recorded-Behind :
      (a : Appending) (now : ℕ) (e : AuditEvent) (l l' : AuditLogger)
      → a.now ≡ ok now
      → DaysUpTo (now / day_ms) l.host.segments
      → AllWhole l.host.segments
      → record_inner x a e l ≡ (ok tt, l')
      → Behind now e l l.host.segments l'.host.segments
  unfolding record_inner append_line
  recorded-Behind a now e l l' clock days whole h =
      elim (FcpResult-cases (prepare_line x a.now e l)) [
        | inr (f, t) ↦ absurd (cc (rw (t, record_inner) at h))
        | inl (p, t) ↦ elim (Option-cases a.open_file) [
          | inr (f, o) ↦ absurd (cc (rw (t, o, record_inner) at h))
          | inl o ↦ elim (Option-cases a.write_all) [
            | inr (f, w) ↦ absurd (cc (rw (t, o, w, record_inner) at h))
            | inl w ↦ elim (Option-cases a.sync_data) [
              | inr (f, s) ↦ absurd (cc (rw (t, o, w, s, record_inner) at h))
              | inl s ↦
                  let r =
                    ap (λ (z : FcpResult (Unit {0}) × AuditLogger). z.1.host.segments)
                      (rw (t, o, w, s, record_inner) at h) in
                  let kept =
                    (persist_anchor-Written x p.sequence p.mac
                      (appended p p.line l).host).segments in
                  subst (Behind now e l l.host.segments) (sym kept ∙ r) (
                    behind now e l p l.host.segments
                      (prepare_line-Prepared x now e l p (rw clock at t)) days whole)
            ]
          ]
        ]
      ]

  failed_sync :
      (a : Appending) (e : AuditEvent) (l : AuditLogger) (p : PreparedLine) (fault : FcpError)
      → prepare_line x a.now e l ≡ ok p
      → a.open_file ≡ none
      → a.write_all ≡ none
      → a.sync_data ≡ some fault
      → record_inner x a e l ≡ (err fault, appended p p.line l)
  unfolding record_inner append_line
  failed_sync a e l p fault t o w s = rw (t, o, w, s, record_inner) refl

  -- Where an entry is written while `sync_data` fails, the sequence in memory stays behind the file, and
  -- the next record that returns repeats its sequence: whatever the anchor and the checkpoint are, the
  -- log is then never accepted again. The clock does not go back.
  pub failed_sync_breaks :
      (a a' : Appending) (now now' : ℕ) (e e' : AuditEvent) (l l' : AuditLogger) (p : PreparedLine)
      (fault : FcpError)
      → a.now ≡ ok now
      → a'.now ≡ ok now'
      → now / day_ms ≤ now' / day_ms
      → DaysUpTo (now / day_ms) l.host.segments
      → AllWhole l.host.segments
      → prepare_line x a.now e l ≡ ok p
      → a.open_file ≡ none
      → a.write_all ≡ none
      → a.sync_data ≡ some fault
      → record_inner x a' e' (record_inner x a e l).1 ≡ (ok tt, l')
      → (key : Bytes) (anchor : Option AuditAnchor) (checkpoint : Option AuditCheckpoint)
        (t : VerifiedTail)
      → verify_chain x key anchor checkpoint l'.host.segments ≢ ok t
  failed_sync_breaks a a' now now' e e' l l' p fault clock clock' le days whole t o w s h key anchor
        checkpoint tail v =
      let first =
        behind now e l p l.host.segments (prepare_line-Prepared x now e l p (rw clock at t)) days
          whole in
      let l₁ = appended p p.line l in
      let second =
        recorded-Behind a' now' e' l₁ l' clock' (days_later _ _ _ le first.days) first.whole
          (rw (failed_sync a e l p fault t o w s) at h) in
      never_accepted l'.host.segments (all_lines l.host.segments) first.line second.line first.entry
        second.entry
        (second.lines
          ∙ ap (λ z. z ++ second.line ∷ []) first.lines
          ∙ append_assoc (all_lines l.host.segments) (first.line ∷ []) (second.line ∷ []))
        first.decoded second.decoded (first.number ∙ sym second.number) key anchor checkpoint tail v
