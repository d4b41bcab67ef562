-- ===== src/Audit/Outbox/Once.antt =====
-- An entry under the id of its event is recorded once.
use fursoy_vault.Prelude.{
  Bytes, Uuid, is_nil, ℕ, ◌/◌, true, false, none, some, List, [], ◌∷◌, ◌++◌, ◌≡◌, inl, inr, refl,
  arith, ap, sym, ◌∙◌, Bool-cases, if◌then◌else◌,
}
use fursoy_vault.Error.{FcpResult, FcpResult-cases, ok, err, ◌>>=◌}
use fursoy_vault.Audit.Lines.{lines_of}
use fursoy_vault.Audit.Chain.{AuditEntry, AuditOutboxEntry, AuditCrates, Segment}
use fursoy_vault.Audit.Chain.Linked.{AuditLaws}
use fursoy_vault.Audit.Chain.Authentic.{all_lines, AllWhole}
use fursoy_vault.Audit.Logger.{day_ms, AuditLogger, AuditEvent, Appending, record_inner}
use fursoy_vault.Audit.Logger.Extends.{DaysUpTo}
use fursoy_vault.Audit.Logger.FailedSync.{recorded-Behind}
use fursoy_vault.Audit.Outbox.{
  is_event, event_of, said, event_in_lines, event_in_segments, record_once,
}

module _ (x : AuditCrates) where
  event_in_lines-append :
      (id : Uuid) (ls ms : List Bytes)
      → event_in_lines x id (ls ++ ms)
        ≡ (event_in_lines x id ls >>= λ found. if found then ok true else event_in_lines x id ms)
  unfolding event_in_lines
  event_in_lines-append id [] ms = refl
  event_in_lines-append id (l ∷ ls) ms = elim (FcpResult-cases (x.entry_of_json l)) [
    | inr (f, t) ↦ rw t refl
    | inl (e, t) ↦ elim (Bool-cases (is_event id e.audit_event_id)) [
      | inl b ↦ rw (t, b) refl
      | inr b ↦ rw (t, b) (event_in_lines-append id ls ms)
    ]
  ]

  -- The search over the files is the search over all lines.
  event_in_segments-lines :
      (id : Uuid) (ss : List Segment)
      → event_in_segments x id ss ≡ event_in_lines x id (all_lines ss)
  unfolding event_in_segments event_in_lines
  event_in_segments-lines id [] = refl
  event_in_segments-lines id (s ∷ ss) =
      rw (event_in_lines-append id (lines_of s.bytes) (all_lines ss), event_in_segments-lines id ss)
        refl

  found_last :
      (id : Uuid) (ls : List Bytes) (line : Bytes) (e : AuditEntry)
      → event_in_lines x id ls ≡ ok false
      → x.entry_of_json line ≡ ok e
      → is_event id e.audit_event_id ≡ true
      → event_in_lines x id (ls ++ line ∷ []) ≡ ok true
  unfolding event_in_lines
  found_last id ls line e n d t = rw (event_in_lines-append id ls (line ∷ []), n, d, t) refl

  -- A call that recorded its entry found no entry with the id before.
  record_once-new :
      (a : Appending) (e : AuditOutboxEntry) (l l' : AuditLogger)
      → record_once x none a e l ≡ (ok true, l')
      → (is_nil e.audit_event_id ≡ false)
        × (event_in_segments x e.audit_event_id l.host.segments ≡ ok false)
        × (record_inner x a (event_of e) l ≡ (ok tt, l'))
  unfolding record_once
  record_once-new a e l l' h = elim (Bool-cases (is_nil e.audit_event_id)) [
    | inl t ↦ absurd (cc (rw (t, record_once) at h))
    | inr t ↦ elim (FcpResult-cases (event_in_segments x e.audit_event_id l.host.segments)) [
      | inr (f, s) ↦ absurd (cc (rw (t, s, record_once) at h))
      | inl (true, s) ↦ absurd (cc (rw (t, s, record_once) at h))
      | inl (false, s) ↦
          (t, s, plain (record_inner x a (event_of e) l) (rw (t, s, record_once) at h))
    ]
  ]
    where
      plain :
          (r : FcpResult (Unit {0}) × AuditLogger) → said true r ≡ (ok true, l') → r ≡ (ok tt, l')
      plain (ok _, k) h = cc
      plain (err f, k) h = absurd (cc h)

-- An entry that was recorded under the id of its event is not recorded again: the second call answers
-- `false` and changes nothing. The files were whole, and the clock was not before the day of the last
-- one.
pub record_once_again :
    (x : AuditCrates)
    → AuditLaws x
    → (a a' : Appending) (now : ℕ) (e : AuditOutboxEntry) (l l' : AuditLogger) → a.now ≡ ok now
    → DaysUpTo (now / day_ms) l.host.segments
    → AllWhole l.host.segments
    → record_once x none a e l ≡ (ok true, l')
    → record_once x none a' e l' ≡ (ok false, l')
unfolding record_once
record_once_again x laws a a' now e l l' clock days whole h =
    let (t, n, r) = record_once-new x a e l l' h in
    let b = recorded-Behind x laws a now (event_of e) l l' clock days whole r in
    let told : b.entry.audit_event_id ≡ some e.audit_event_id =
      ap (λ (z : AuditEvent). z.audit_event_id) b.told in
    let same : is_event e.audit_event_id b.entry.audit_event_id ≡ true = rw told (ground arith) in
    let before = sym (event_in_segments-lines x e.audit_event_id l.host.segments) ∙ n in
    let found : event_in_segments x e.audit_event_id l'.host.segments ≡ ok true =
      event_in_segments-lines x e.audit_event_id l'.host.segments
      ∙ ap (event_in_lines x e.audit_event_id) b.lines
      ∙ found_last x e.audit_event_id (all_lines l.host.segments) b.line b.entry before b.decoded
          same in
    rw (t, found, record_once) refl
