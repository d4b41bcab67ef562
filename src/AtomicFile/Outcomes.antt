-- ===== src/AtomicFile/Outcomes.antt =====
-- What the outcome of a write says of the file.
use fursoy_vault.Prelude.{
  Bytes, bytes_eq, [], ◌∷◌, Bytes-discrete, OptionBytes-discrete, ◌≡◌, ◌⊎◌, arith, Option, none,
  some, true, ◌≢◌, Bool-cases, inl, inr, Option-cases, eqb, eqb→eq, eqb→ne,
}
use mathlib.Core.Path.{subst}
use fursoy_vault.Error.{ok-injective, FcpError, FcpResult, ok, err}
use fursoy_vault.AtomicFile.{
  FileState, Faults, settled, WriteOutcome, success, failure, committed, not_committed,
  durability_unknown, stored_bytes, write_verified_durable, write_verified, classify_object,
  classify_bytes, ObjectClassification, missing, target, previous, neither,
}

-- What an outcome promises: a success or an unknown durability left bytes that `verify` accepted,
-- and a write that is not committed left the target alone.
abbrev pub Promise :
    (Bytes → FcpResult (Unit {0})) → Bytes → FileState → WriteOutcome → FileState → Type 0
Promise verify stored s (success committed) s' =
    (s'.target ≡ some stored) × (s'.temporary ≡ none) × (verify stored ≡ ok tt)
Promise verify stored s (success _) s' = ⊥
Promise verify stored s (failure not_committed _) s' = s'.target ≡ s.target
Promise verify stored s (failure durability_unknown _) s' =
    (s'.target ≡ some stored) × (s'.temporary ≡ none) × (verify stored ≡ ok tt)
Promise verify stored s (failure committed _) s' = ⊥

-- Every write keeps the promise of its outcome.
pub write_verified_durable-Promise :
    (f : Faults) (bytes : Bytes) (verify : Bytes → FcpResult (Unit {0})) (s : FileState)
    → Promise verify
        (stored_bytes f bytes)
        s
        (write_verified_durable f bytes verify s).0
        (write_verified_durable f bytes verify s).1
unfolding write_verified_durable
write_verified_durable-Promise f bytes verify s = ground arith

-- What the medium keeps after an outcome: a success is kept, a write that is not committed leaves the
-- survivors alone, and one of unknown durability adds the new bytes and the loss of both names.
abbrev pub Survives : Bytes → FileState → WriteOutcome → FileState → Type 0
Survives stored s (success committed) s' = s'.survivors ≡ some stored ∷ []
Survives stored s (success _) s' = ⊥
Survives stored s (failure not_committed _) s' = s'.survivors ≡ s.survivors
Survives stored s (failure durability_unknown _) s' =
    s'.survivors ≡ some stored ∷ none ∷ s.survivors
Survives stored s (failure committed _) s' = ⊥

-- Loss of power: after a write that committed, the path can only hold the bytes that were verified;
-- after one that is not committed, only what it could hold before; and after one of unknown
-- durability those bytes, no file, or what it could hold before. Contents that were not synced may
-- be kept as anything.
pub write_verified_durable-Survives :
    (f : Faults) (bytes : Bytes) (verify : Bytes → FcpResult (Unit {0})) (s : FileState)
    → Survives
        (stored_bytes f bytes)
        s
        (write_verified_durable f bytes verify s).0
        (write_verified_durable f bytes verify s).1
unfolding write_verified_durable
write_verified_durable-Survives f bytes verify s = ground arith

-- A write whose directory is flushed leaves a settled path settled.
pub survivors_settled :
    (f : Faults) (bytes : Bytes) (verify : Bytes → FcpResult (Unit {0})) (s : FileState)
    → f.sync_directory ≡ none
    → s.survivors ≡ s.target ∷ []
    → let s' = (write_verified_durable f bytes verify s).1 in s'.survivors ≡ s'.target ∷ []
unfolding write_verified_durable
survivors_settled f bytes verify s d h = ground arith

-- Any write of a settled path leaves it settled, or with its old contents, its new ones and no file.
pub survivors_written :
    (f : Faults) (bytes : Bytes) (verify : Bytes → FcpResult (Unit {0})) (s : FileState)
    → s.survivors ≡ s.target ∷ []
    → let s' = (write_verified_durable f bytes verify s).1 in
      (s'.survivors ≡ s'.target ∷ []) ⊎ (s'.survivors ≡ s'.target ∷ none ∷ s.target ∷ [])
unfolding write_verified_durable
survivors_written f bytes verify s h = ground arith

-- Nothing goes wrong: every call of the operating system succeeds.
pub record IsQuiet (f : Faults) : Type 0 where
  pub parent : f.has_parent ≡ true
  pub file_name : f.has_file_name ≡ true
  pub dir : f.create_dir ≡ none
  pub open_ok : f.open_temporary ≡ none
  pub write_ok : f.write_all ≡ none
  pub as_written : f.stored ≡ none
  pub sync_ok : f.sync_all ≡ none
  pub read_ok : f.read_back ≡ none
  pub replace_ok : f.replace ≡ none
  pub directory_ok : f.sync_directory ≡ none
  pub previous_ok : f.read_previous ≡ none

-- If nothing goes wrong, no temporary file is in the way and `verify` accepts the bytes, then the
-- write commits and the target holds the bytes.
pub write_verified_durable_total :
    (f : Faults) (bytes : Bytes) (verify : Bytes → FcpResult (Unit {0})) (s : FileState)
    → IsQuiet f
    → s.temporary ≡ none
    → verify bytes ≡ ok tt
    → write_verified_durable f bytes verify s ≡ (success committed, settled (some bytes))
unfolding write_verified_durable
write_verified_durable_total f bytes verify s q t v = ground arith

-- A write that fails, once it reaches the temporary file and may remove it, leaves none behind, so
-- that the next `create_new` is not refused.
pub write_verified_durable_heals :
    (f : Faults) (bytes : Bytes) (verify : Bytes → FcpResult (Unit {0})) (s : FileState)
    → f.has_parent ≡ true
    → f.has_file_name ≡ true
    → f.create_dir ≡ none
    → f.can_remove ≡ true
    → (write_verified_durable f bytes verify s).1.temporary ≡ none
unfolding write_verified_durable
write_verified_durable_heals f bytes verify s p n d r = ground arith

-- What a caller of `write_verified` knows: a success published bytes that `verify` accepted, and an
-- error either left the target alone or published such bytes without a durable directory entry.
pub write_verified_result :
    (f : Faults) (bytes : Bytes) (verify : Bytes → FcpResult (Unit {0})) (s : FileState)
    → let (r, s') = write_verified f bytes verify s in
      ((r ≡ ok tt)
        × (s'.target ≡ some (stored_bytes f bytes))
        × (verify (stored_bytes f bytes) ≡ ok tt))
      ⊎ ((e : FcpError) × (r ≡ err e)
          × ((s'.target ≡ s.target)
              ⊎ ((s'.target ≡ some (stored_bytes f bytes))
                  × (verify (stored_bytes f bytes) ≡ ok tt))))
unfolding write_verified write_verified_durable
write_verified_result f bytes verify s = ground arith

-- What a classification says of the path, by digests.
abbrev pub Means :
    (Bytes → Bytes) → FileState → Option Bytes → Bytes → ObjectClassification → Type 0
Means sha256 s old new missing = s.target ≡ none
Means sha256 s old new target = (b : Bytes) × (s.target ≡ some b) × (sha256 b ≡ new)
Means sha256 s old new previous =
    (b : Bytes) × (s.target ≡ some b) × (sha256 b ≢ new) × (old ≡ some (sha256 b))
Means sha256 s old new neither =
    (b : Bytes) × (s.target ≡ some b) × (sha256 b ≢ new) × (old ≢ some (sha256 b))

classify_bytes-Means :
    (sha256 : Bytes → Bytes) (s : FileState) (old : Option Bytes) (new b : Bytes)
    → s.target ≡ some b
    → Means sha256 s old new (classify_bytes sha256 old new b)
unfolding classify_bytes
classify_bytes-Means sha256 s old new b e = elim (Bool-cases (bytes_eq (sha256 b) new)) [
  | inl p ↦ rw p (b, e, eqb→eq Bytes-discrete _ _ p)
  | inr n ↦ elim (Bool-cases (eqb OptionBytes-discrete old (some (sha256 b)))) [
    | inl q ↦ rw (n, q) (b, e, eqb→ne Bytes-discrete _ _ n, eqb→eq OptionBytes-discrete _ _ q)
    | inr m ↦ rw (n, m) (b, e, eqb→ne Bytes-discrete _ _ n, eqb→ne OptionBytes-discrete _ _ m)
  ]
]

-- A classification that is returned says what the path holds.
pub classify_object-Means :
    (sha256 : Bytes → Bytes) (fault : Option FcpError) (s : FileState) (old : Option Bytes)
    (new : Bytes) {c : ObjectClassification}
    → classify_object sha256 fault s old new ≡ ok c
    → Means sha256 s old new c
unfolding classify_object
classify_object-Means sha256 (some e) s old new h = cc
classify_object-Means sha256 none s old new h = elim (Option-cases s.target) [
  | inl e ↦ subst (Means sha256 s old new) (ok-injective (rw (e, classify_object) at h)) e
  | inr (b, e) ↦
      subst (Means sha256 s old new) (ok-injective (rw (e, classify_object) at h))
        (classify_bytes-Means sha256 s old new b e)
]
