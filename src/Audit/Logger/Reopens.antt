-- ===== src/Audit/Logger/Reopens.antt =====
-- A log that was recorded to is accepted when it is opened again.
use fursoy_vault.Prelude.{
  Bytes, u64_limit, ℕ, ◌+◌, ◌/◌, ◌<◌, Option, none, some, [], ◌∷◌, ◌++◌, ◌≡◌, ◌⊎◌, inl, inr, refl,
  ap, sym, ◌∙◌, Option-cases,
}
use mathlib.Core.Path.{subst}
use fursoy_vault.Error.{FcpError, ok, err, FcpResult-cases}
use fursoy_vault.Audit.Chain.{AuditEntry, AuditAnchor, AuditCheckpoint, AuditCrates, verify_chain}
use fursoy_vault.Audit.Chain.Linked.{AuditLaws, Continues, calculate_mac-width}
use fursoy_vault.Audit.Chain.Authentic.{all_lines, AllWhole}
use fursoy_vault.Audit.Logger.{
  day_ms, AuditHost, AuditLogger, AuditEvent, Appending, PreparedLine, append_to, append_line,
  unsigned_entry, signed_entry, prepare_line, advance, record_inner, load_anchor, load_checkpoint,
  appended,
}
use fursoy_vault.Audit.Logger.Extends.{DaysUpTo, append_to-last}
use fursoy_vault.Audit.Logger.Checks.{
  Checked, verify_chain-Checked, Checked-verify_chain, Checked-append, Checked-append_anchored,
}
use fursoy_vault.Audit.Logger.Writes.{
  Prepared, prepare_line-Prepared, AnchorWritten, persist_anchor-Written, load_anchor-same,
  load_anchor-written, load_checkpoint-same, anchor_for,
}

-- What an opening would find, if every read succeeds: an anchor, and a chain that is accepted and ends
-- where the memory stands.
pub record IsLive (x : AuditCrates) (l : AuditLogger) : Type 0 where
  pub anchor : AuditAnchor
  pub checkpoint : Option AuditCheckpoint
  pub anchor_loads : load_anchor x none l.host ≡ ok (some anchor)
  pub checkpoint_loads : load_checkpoint x none l.host ≡ ok checkpoint
  pub verifies :
      verify_chain x l.key (some anchor) checkpoint l.host.segments
      ≡ ok (record { sequence = l.sequence; mac = l.mac })

-- What a call of `record_inner` has done: nothing, or it has appended one line, whose entry is the event
-- under the next sequence.
abbrev pub entry_event : AuditEntry → AuditEvent
entry_event e = record {
  account_group_id = e.account_group_id;
  event = e.event;
  outcome = e.outcome;
  operation_id = e.operation_id;
  detail_code = e.detail_code;
  audit_event_id = e.audit_event_id;
}

abbrev pub Recorded : AuditCrates → AuditEvent → AuditLogger → AuditLogger → Type 0
Recorded x e l l' =
    (line : Bytes) × (entry : AuditEntry) × (all_lines l'.host.segments
      ≡ all_lines l.host.segments ++ line ∷ [])
    × (x.entry_of_json line ≡ ok entry)
    × (entry_event entry ≡ e)
    × (entry.sequence ≡ l.sequence + 1)
    × (l'.sequence ≡ l.sequence + 1)

module _ (x : AuditCrates) (laws : AuditLaws x) (now : ℕ) (e : AuditEvent) (l : AuditLogger) where
  abbrev entry_at : PreparedLine → AuditEntry
  entry_at p = signed_entry x (unsigned_entry x (l.sequence + 1) now e l) p.mac

  module _ (live : IsLive x l) (days : DaysUpTo (now / day_ms) l.host.segments)
      (room : l.sequence + 2 < u64_limit) (p : PreparedLine) (made : Prepared x now e l p) where
    prepared-Continues : Continues x l.key (l.sequence + 1) l.mac (entry_at p) p.mac
    prepared-Continues = record {
      schema = refl;
      sequence = refl;
      follows = refl;
      code = refl;
      canonical = made.canonical;
      serialized = made.serialized;
      authentic = made.authentic;
    }

    extended :
        (all_lines (append_to p.day p.line l.host.segments)
          ≡ all_lines l.host.segments ++ made.text ∷ [])
        × AllWhole (append_to p.day p.line l.host.segments)
    extended =
        let (_, whole) =
          verify_chain-Checked x laws l.key live.checkpoint live.anchor l.host.segments _
            live.verifies in
        let one =
          append_to-last (now / day_ms) made.text l.host.segments days whole
            (laws.entry-IsLine _ _ made.written) in
        rw (made.line, made.day) one

    verifies_with :
        (h : AuditHost) (a : AuditAnchor)
        → h.segments ≡ append_to p.day p.line l.host.segments
        → Checked x l.key a live.checkpoint
            (all_lines l.host.segments ++ made.text ∷ [])
            (record { sequence = l.sequence + 1; mac = p.mac })
        → verify_chain x l.key (some a) live.checkpoint h.segments
          ≡ ok (record { sequence = p.sequence; mac = p.mac })
    verifies_with h a s k =
        let (lines, whole) = extended in
        let k' =
          subst
            (λ ls.
              Checked x l.key a live.checkpoint ls
                (record { sequence = l.sequence + 1; mac = p.mac }))
            (sym lines) k in
        let v =
          Checked-verify_chain x laws l.key live.checkpoint a
            (append_to p.day p.line l.host.segments) _ k' whole in
        rw (s, made.number) v

    after_anchor :
        (h : AuditHost)
        → AnchorWritten x p.sequence p.mac (appended p p.line l).host h
        → IsLive x (record l { sequence = p.sequence; mac = p.mac; host = h })
    after_anchor h w =
        let (k, _) =
          verify_chain-Checked x laws l.key live.checkpoint live.anchor l.host.segments _
            live.verifies in
        let d = laws.entry_again _ _ made.written in
        let loads =
          load_checkpoint-same x l.host h live.checkpoint w.checkpoint live.checkpoint_loads in
        let (width, bytes) = calculate_mac-width x laws l.key made.canonical p.mac made.authentic in
        elim w.file [
          | inl same ↦ record {
            anchor = live.anchor;
            checkpoint = live.checkpoint;
            anchor_loads = load_anchor-same x l.host h live.anchor same live.anchor_loads;
            checkpoint_loads = loads;
            verifies = verifies_with h live.anchor w.segments (
                Checked-append x laws l.key live.checkpoint live.anchor _ _ made.text p.mac
                  (entry_at p) k d prepared-Continues room);
          }
          | inr (b, plaintext, t, u, j) ↦ record {
            anchor = anchor_for x p.sequence p.mac;
            checkpoint = live.checkpoint;
            anchor_loads =
                load_anchor-written x laws h p.sequence p.mac b plaintext width bytes t u j;
            checkpoint_loads = loads;
            verifies = verifies_with h (anchor_for x p.sequence p.mac) w.segments (
                subst
                  (λ n.
                    Checked x l.key (anchor_for x n p.mac) live.checkpoint
                      (all_lines l.host.segments ++ made.text ∷ [])
                      (record { sequence = l.sequence + 1; mac = p.mac }))
                  (sym made.number)
                  (Checked-append_anchored x laws l.key live.checkpoint live.anchor _ _ made.text
                    p.mac (entry_at p) k d prepared-Continues room));
          }
        ]

    advance-IsLive :
        IsLive x (advance x p (appended p p.line l)).1
        × Recorded x e l (advance x p (appended p p.line l)).1
    advance-IsLive =
        let w = persist_anchor-Written x p.sequence p.mac (appended p p.line l).host in
        let (lines, _) = extended in
        (
          after_anchor _ w,
          (
            made.text,
            entry_at p,
            ap all_lines w.segments ∙ lines,
            laws.entry_again _ _ made.written,
            refl,
            refl,
            made.number,
          ),
        )

-- A log whose directory would be accepted is accepted after any record whose line is written and synced,
-- whatever happens to the anchor: the chain then ends where the memory stands. The clock is not before
-- the day of the last file, and a u64 has room for two more sequences. The log was not touched, with an
-- error, or it has one more line, the event under the next sequence.
pub record_inner-IsLive :
    (x : AuditCrates)
    → AuditLaws x
    → (a : Appending) (now : ℕ) (e : AuditEvent) (l : AuditLogger) → IsLive x l
    → a.now ≡ ok now
    → DaysUpTo (now / day_ms) l.host.segments
    → l.sequence + 2 < u64_limit
    → a.write_all ≡ none
    → a.sync_data ≡ none
    → IsLive x (record_inner x a e l).1
      × (((f : FcpError) × (record_inner x a e l ≡ (err f, l)))
          ⊎ Recorded x e l (record_inner x a e l).1)
unfolding record_inner append_line
record_inner-IsLive x laws a now e l live clock days room w s =
    elim (FcpResult-cases (prepare_line x a.now e l)) [
      | inr (f, t) ↦ rw (t, record_inner) (live, inl (f, refl))
      | inl (p, t) ↦ elim (Option-cases a.open_file) [
        | inr (f, o) ↦ rw (t, o, record_inner) (live, inl (f, refl))
        | inl o ↦
            let made = prepare_line-Prepared x now e l p (rw clock at t) in
            let (k, r) = advance-IsLive x laws now e l live days room p made in
            rw (t, o, w, s, record_inner) (k, inr r)
      ]
    ]
