-- ===== src/Tests/Audits.antt =====
-- A log with one entry and the records that follow. The stand-in digest is always the same 32 bytes, and
-- an entry is written as its sequence, its time and its id; other entries cannot be written.
use fursoy_vault.Prelude.{
  Bytes, Uuid, ℕ, ◌+◌, ◌-◌, Bool, true, false, Option, none, some, [], ◌∷◌, ◌++◌, ◌==◌, ◌≡◌, ◌≢◌,
  ◌⊎◌, inl, inr, refl, sym, ◌∙◌, arith, replicate, length-replicate, eqb, eqb→eq, ap, if◌then◌else◌,
  Bytes-discrete, ℕ_discrete, Bool-cases,
}
use mathlib.Core.Path.{subst}
use fursoy_vault.Error.{FcpError, FcpResult, ok, err, io, json, ok-injective}
use fursoy_vault.AtomicFile.{FileState}
use fursoy_vault.Audit.Hex.{encode_hex}
use fursoy_vault.Audit.Lines.{newline, IsLine, is_whole}
use fursoy_vault.Audit.Chain.{
  zero_mac, AuditEntry, AuditAnchor, AuditCheckpoint, AuditOutboxEntry, AuditCrates, Segment,
  VerifiedTail, verify_chain,
}
use fursoy_vault.Audit.Chain.Linked.{AuditLaws}
use fursoy_vault.Audit.Chain.Authentic.{AllWhole, IsAuthentic, verify_chain-Authentic}
use fursoy_vault.Audit.Logger.{
  AuditHost, AuditLogger, AuditEvent, Appending, PreparedLine, day_ms, record_inner, prepare_line,
  load_anchor, load_checkpoint,
}
use fursoy_vault.Audit.Logger.Reopens.{IsLive, Recorded, record_inner-IsLive}
use fursoy_vault.Audit.Logger.FailedSync.{failed_sync_breaks}
use fursoy_vault.Audit.Outbox.{event_of, record_once}
use fursoy_vault.Audit.Outbox.Once.{record_once_again}
use fursoy_vault.Tests.Fixtures.{group, no_file, file_with}

abbrev digest : Bytes
digest = replicate 32 7

-- Kept shut in the proofs below.
digest_text : Bytes
digest_text = encode_hex digest

zero_text : Bytes
zero_text = encode_hex zero_mac

abbrev mac_before : ℕ → Bytes
mac_before n = if n == 1 then zero_text else digest_text

abbrev id_of : ℕ → Option Uuid
id_of n = if n == 0 then none else some n

abbrev id_code : Option Uuid → ℕ
id_code none = 0
id_code (some n) = n

abbrev entry_at : ℕ → ℕ → ℕ → AuditEntry
entry_at n now id = record {
  schema_version = 2;
  sequence = n;
  previous_mac = mac_before n;
  timestamp_unix_ms = now;
  account_group_id = some group;
  event = 1 ∷ [];
  outcome = [];
  operation_id = none;
  detail_code = none;
  audit_event_id = id_of id;
  mac = digest_text;
}

AuditEntry-discrete : Discrete AuditEntry
AuditEntry-discrete = hlevel ℕ_discrete

AuditAnchor-discrete : Discrete AuditAnchor
AuditAnchor-discrete = hlevel ℕ_discrete

-- A newline is 10.
abbrev entry_code : AuditEntry → Bytes
entry_code e = (11 + e.sequence) ∷ (11 + e.timestamp_unix_ms) ∷ (11 + id_code e.audit_event_id) ∷ []

abbrev decode_entry : Bytes → FcpResult AuditEntry
decode_entry (n ∷ now ∷ id ∷ []) = ok (entry_at (n - 11) (now - 11) (id - 11))
decode_entry _ = err json

abbrev encode_entry : AuditEntry → FcpResult Bytes
encode_entry e =
    if eqb AuditEntry-discrete (entry_at e.sequence e.timestamp_unix_ms (id_code e.audit_event_id))
      e
    then ok (entry_code e)
    else err json

abbrev anchor_at : ℕ → AuditAnchor
anchor_at n = record {
  schema_version = 2;
  sequence = n;
  mac = if n == 0 then zero_text else digest_text;
}

abbrev decode_anchor : Bytes → FcpResult AuditAnchor
decode_anchor [] = err json
decode_anchor (n ∷ _) = ok (anchor_at n)

abbrev encode_anchor : AuditAnchor → FcpResult Bytes
encode_anchor a =
    if eqb AuditAnchor-discrete (anchor_at a.sequence) a then ok (a.sequence ∷ []) else err json

abbrev crates : AuditCrates
crates = record {
  sha256 = λ b. digest;
  unsigned_json = λ u. ok (u.sequence ∷ []);
  entry_json = encode_entry;
  entry_of_json = decode_entry;
  anchor_json = encode_anchor;
  anchor_of_json = decode_anchor;
  checkpoint_json = λ c. err json;
  checkpoint_of_json = λ b. err json;
  outbox_json = λ es. err json;
  outbox_of_json = λ b. err json;
  protect = λ b. ok b;
  unprotect = λ b. ok b;
}

shifted : (n : ℕ) → 11 + n - 11 ≡ n
shifted n = omega arith

not_newline : (n : ℕ) → 11 + n ≢ newline
not_newline n e = omega arith

decode_code :
    (e : AuditEntry)
    → decode_entry (entry_code e)
      ≡ ok (entry_at e.sequence e.timestamp_unix_ms (id_code e.audit_event_id))
decode_code e =
    rw (shifted e.sequence, shifted e.timestamp_unix_ms, shifted (id_code e.audit_event_id)) refl

entry_again : (e : AuditEntry) (b : Bytes) → encode_entry e ≡ ok b → decode_entry b ≡ ok e
entry_again e b h =
    let same = entry_at e.sequence e.timestamp_unix_ms (id_code e.audit_event_id) in
    elim (Bool-cases (eqb AuditEntry-discrete same e)) [
      | inr t ↦ absurd (cc (rw t at h))
      | inl t ↦
          let code : entry_code e ≡ b = ok-injective (rw t at h) in
          ap decode_entry (sym code) ∙ decode_code e ∙ ap ok (eqb→eq AuditEntry-discrete same e t)
    ]

entry-IsLine : (e : AuditEntry) (b : Bytes) → encode_entry e ≡ ok b → IsLine b
entry-IsLine e b h =
    let same = entry_at e.sequence e.timestamp_unix_ms (id_code e.audit_event_id) in
    elim (Bool-cases (eqb AuditEntry-discrete same e)) [
      | inr t ↦ absurd (cc (rw t at h))
      | inl t ↦
          let code : entry_code e ≡ b = ok-injective (rw t at h) in
          subst IsLine code (record {
            some_byte = λ p. cc p;
            no_newline = (
              not_newline e.sequence,
              (not_newline e.timestamp_unix_ms, (not_newline (id_code e.audit_event_id), tt)),
            );
          })
    ]

anchor_again : (a : AuditAnchor) (b : Bytes) → encode_anchor a ≡ ok b → decode_anchor b ≡ ok a
anchor_again a b h = elim (Bool-cases (eqb AuditAnchor-discrete (anchor_at a.sequence) a)) [
  | inr t ↦ absurd (cc (rw t at h))
  | inl t ↦
      let code : a.sequence ∷ [] ≡ b = ok-injective (rw t at h) in
      ap decode_anchor (sym code) ∙ ap ok (eqb→eq AuditAnchor-discrete (anchor_at a.sequence) a t)
]

laws : AuditLaws crates
laws = record {
  digest_width = λ b. length-replicate {A = ℕ} 32 7;
  digest_bytes = λ b. omega arith;
  entry_again = entry_again;
  entry-IsLine = entry-IsLine;
  anchor_again = anchor_again;
}

-- An anchor file, and one segment of day 0 with the entry 1.
abbrev host : AuditHost
host = record {
  key_file = file_with (replicate 32 5);
  anchor_file = file_with (1 ∷ []);
  checkpoint_file = no_file;
  outbox_file = no_file;
  segments = record { day = 0; bytes = entry_code (entry_at 1 20 0) ++ newline ∷ [] } ∷ [];
  faults = [];
}

abbrev logger : AuditLogger
logger = record {
  host = host;
  key = replicate 32 5;
  sequence = 1;
  mac = digest;
  recovered_on_open = false;
}

abbrev tail : VerifiedTail
tail = record { sequence = 1; mac = digest }

verified : verify_chain crates (replicate 32 5) (some (anchor_at 1)) none host.segments ≡ ok tail
unfolding verify_chain fursoy_vault.Audit.Chain.verify_segments fursoy_vault.Audit.Lines.is_whole
    fursoy_vault.Audit.Chain.verify_lines fursoy_vault.Audit.Lines.lines_of
    fursoy_vault.Audit.Chain.verify_line Bytes-discrete zero_text encode_hex ℕ_discrete
    fursoy_vault.Audit.Hex.hex_digit fursoy_vault.Audit.Hex.decode_mac digest_text
    fursoy_vault.Audit.Hex.decode_pairs fursoy_vault.Audit.Hex.radix_pair
    fursoy_vault.Audit.Chain.verify_mac fursoy_vault.Audit.Chain.calculate_mac
    fursoy_vault.Audit.Chain.no_difference fursoy_vault.Audit.Chain.tail_of
    fursoy_vault.Operation.Fingerprint.hmac_sha256
verified = refl

verify_chain-Authentic_example :
    IsAuthentic crates (replicate 32 5) (some (anchor_at 1)) none host.segments tail
verify_chain-Authentic_example =
    verify_chain-Authentic crates laws (replicate 32 5) (some (anchor_at 1)) none host.segments tail
      verified

abbrev event : AuditEvent
event = record {
  account_group_id = some group;
  event = 1 ∷ [];
  outcome = [];
  operation_id = none;
  detail_code = none;
  audit_event_id = none;
}

-- Every call succeeds, at a time of day 0.
abbrev pub appending : ℕ → Appending
appending now = record {
  now = ok now;
  open_file = none;
  write_all = none;
  written = 0;
  sync_data = none;
}

anchor_loaded : load_anchor crates none host ≡ ok (some (anchor_at 1))
unfolding load_anchor fursoy_vault.Audit.Hex.decode_mac digest_text encode_hex
    fursoy_vault.Audit.Hex.decode_pairs fursoy_vault.Audit.Hex.radix_pair
    fursoy_vault.Audit.Hex.hex_digit Bytes-discrete ℕ_discrete
anchor_loaded = refl

checkpoint_loaded : load_checkpoint crates none host ≡ ok none
unfolding load_checkpoint
checkpoint_loaded = refl

whole : AllWhole host.segments
unfolding is_whole
whole = (refl, tt)

live : IsLive crates logger
live = record {
  anchor = anchor_at 1;
  checkpoint = none;
  anchor_loads = anchor_loaded;
  checkpoint_loads = checkpoint_loaded;
  verifies = verified;
}

record_inner-IsLive_example :
    IsLive crates (record_inner crates (appending 30) event logger).1
    × (((f : FcpError) × (record_inner crates (appending 30) event logger ≡ (err f, logger)))
        ⊎ Recorded crates event logger (record_inner crates (appending 30) event logger).1)
record_inner-IsLive_example =
    record_inner-IsLive crates laws (appending 30) 30 event logger live refl (omega arith)
      (omega arith) refl refl

abbrev unsynced : Appending
unsynced = record (appending 30) { sync_data = some io }

abbrev second_line : PreparedLine
second_line = record {
  sequence = 2;
  day = 0;
  mac = digest;
  line = entry_code (entry_at 2 30 0) ++ newline ∷ [];
}

prepared : prepare_line crates (ok 30) event logger ≡ ok second_line
unfolding prepare_line fursoy_vault.Audit.Chain.calculate_mac AuditEntry-discrete ℕ_discrete
    digest_text encode_hex fursoy_vault.Audit.Hex.hex_digit
    fursoy_vault.Operation.Fingerprint.hmac_sha256
prepared = refl

abbrev broken : FcpResult (Unit {0}) × AuditLogger
broken = record_inner crates (appending 40) event (record_inner crates unsynced event logger).1

returned : broken.0 ≡ ok tt
unfolding record_inner prepare_line fursoy_vault.Audit.Chain.calculate_mac AuditEntry-discrete
    ℕ_discrete digest_text encode_hex fursoy_vault.Audit.Hex.hex_digit
    fursoy_vault.Operation.Fingerprint.hmac_sha256 fursoy_vault.Audit.Logger.append_line
    fursoy_vault.Audit.Logger.persist_anchor AuditAnchor-discrete
    fursoy_vault.Audit.Logger.persist_protected_file fursoy_vault.AtomicFile.write_verified
    fursoy_vault.AtomicFile.write_verified_durable Bytes-discrete
returned = refl

failed_sync_breaks_example :
    verify_chain crates (replicate 32 5) (some (anchor_at 2)) none broken.1.host.segments ≢ ok tail
failed_sync_breaks_example =
    failed_sync_breaks crates laws unsynced (appending 40) 30 40 event event logger broken.1
      second_line io refl refl (omega arith) (omega arith) whole prepared refl refl refl
      (ap (λ r. (r, broken.1)) returned) (replicate 32 5) (some (anchor_at 2)) none tail

abbrev entry_once : AuditOutboxEntry
entry_once = record {
  audit_event_id = 9;
  account_group_id = group;
  event = 1 ∷ [];
  outcome = [];
  operation_id = none;
  detail_code = none;
}

abbrev once : FcpResult Bool × AuditLogger
once = record_once crates none (appending 30) entry_once logger

recorded : once.0 ≡ ok true
unfolding record_once fursoy_vault.Audit.Outbox.event_in_segments
    fursoy_vault.Audit.Outbox.event_in_lines fursoy_vault.Audit.Lines.lines_of record_inner
    prepare_line fursoy_vault.Audit.Chain.calculate_mac AuditEntry-discrete ℕ_discrete digest_text
    encode_hex fursoy_vault.Audit.Hex.hex_digit fursoy_vault.Operation.Fingerprint.hmac_sha256
    fursoy_vault.Audit.Logger.append_line fursoy_vault.Audit.Logger.persist_anchor
    AuditAnchor-discrete fursoy_vault.Audit.Logger.persist_protected_file
    fursoy_vault.AtomicFile.write_verified fursoy_vault.AtomicFile.write_verified_durable
    fursoy_vault.Audit.Logger.append_to Bytes-discrete
recorded = refl

record_once_again_example :
    record_once crates none (appending 50) entry_once once.1 ≡ (ok false, once.1)
record_once_again_example =
    record_once_again crates laws (appending 30) (appending 50) 30 entry_once logger once.1 refl
      (omega arith) whole (ap (λ r. (r, once.1)) recorded)
