-- ===== src/AtomicFile.antt =====
-- native-host/src/atomic_file.rs: the crash-safe replacement of one file, and the classification of
-- what a path holds. The operating system's answers are an argument, a `Faults` record.
pub mod Outcomes
use fursoy_vault.Prelude.{
  Bytes, bytes_eq, Bytes-discrete, OptionBytes-discrete, Uuid, is_nil, is_some_nil, is_none,
  u64_limit, checked_suc, ℕ, Bool, true, false, Option, none, some, List, [], ◌∷◌, ◌≡◌, ℕ_discrete,
  eqb, if◌then◌else◌, ◌&&◌,
}
use fursoy_vault.Error.{FcpError, FcpResult, ok, err, io, format, no_parent_directory, no_file_name}

pub data DurableWriteResult : Type 0 where
  not_committed committed durability_unknown : DurableWriteResult

-- `Result<DurableWriteResult, DurableWriteFailure>`.
pub data WriteOutcome : Type 0 where
  success : DurableWriteResult → WriteOutcome
  failure : DurableWriteResult → FcpError → WriteOutcome

pub data ObjectClassification : Type 0 where
  previous target missing neither : ObjectClassification

-- One path: what a reader finds at it and at its `.tmp` sibling, and what the medium keeps of them.
-- `flushed` is what the contents of the sibling are after a loss of power, and `survivors` lists what
-- the path may hold then, the newest first; a settled path has one survivor. The directory itself is
-- taken to survive.
pub record FileState : Type 0 where
  pub target : Option Bytes
  pub temporary : Option Bytes
  pub flushed : Option Bytes
  pub survivors : List (Option Bytes)

-- A path that the medium keeps as it is.
abbrev pub settled : Option Bytes → FileState
settled contents = record {
  target = contents;
  temporary = none;
  flushed = none;
  survivors = contents ∷ [];
}

-- The path after a change of its directory entry that no flush has followed.
abbrev pub entry_changed : Option Bytes → FileState → FileState
entry_changed contents s = record s { target = contents; survivors = contents ∷ s.survivors }

-- What the operating system answers during one write: `none` is success.
pub record Faults : Type 0 where
  pub has_parent : Bool
  pub has_file_name : Bool
  pub create_dir : Option FcpError
  pub open_temporary : Option FcpError
  pub write_all : Option FcpError
  pub partial : Bytes  -- what a failed write leaves in the temporary file
  pub stored : Option Bytes  -- what the medium holds, where that is not what was written
  pub unsynced : Option Bytes  -- what the medium keeps of contents that were not synced
  pub sync_all : Option FcpError
  pub read_back : Option FcpError
  pub replace : Option FcpError
  pub sync_directory : Option FcpError
  pub can_remove : Bool
  pub read_previous : Option FcpError
  pub reread : Option FcpError

-- The closure inside `write_verified_durable`: its result, `replaced`, and the files.
pub record Progress : Type 0 where
  pub result : FcpResult (Unit {0})
  pub replaced : Bool
  pub file : FileState

abbrev stopped : FcpError → FileState → Progress
stopped e s = record { result = err e; replaced = false; file = s }

-- `atomic_replace`: until the directory is flushed, a loss of power may leave the path with the
-- contents of the source that were flushed, with neither name, or as it was.
abbrev renamed : Bytes → FileState → FileState
renamed content s = record {
  target = some content;
  temporary = none;
  flushed = none;
  survivors = s.flushed ∷ none ∷ s.survivors;
}

abbrev newest : List (Option Bytes) → List (Option Bytes)
newest [] = []
newest (contents ∷ older) = contents ∷ []

-- `sync_directory`
abbrev entry_synced : FileState → FileState
entry_synced s = record s { survivors = newest s.survivors }

replace_stage : Faults → Bytes → FileState → Progress
replace_stage f content s = elim f.replace [
  | some e ↦ stopped e s
  | none ↦ elim f.sync_directory [
    | some e ↦ record { result = err e; replaced = true; file = renamed content s }
    | none ↦ record { result = ok tt; replaced = true; file = entry_synced (renamed content s) }
  ]
]

verify_stage : Faults → (Bytes → FcpResult (Unit {0})) → Bytes → FileState → Progress
unfolding replace_stage
verify_stage f verify content s = elim f.read_back [
  | some e ↦ stopped e s
  | none ↦ elim (verify content) [ err e ↦ stopped e s | ok _ ↦ replace_stage f content s ]
]

-- What the temporary file holds once it is written.
abbrev pub stored_bytes : Faults → Bytes → Bytes
stored_bytes f bytes = elim f.stored [ none ↦ bytes | some other ↦ other ]

-- `write_all`, whose contents only `sync_all` brings to the medium.
abbrev written_to : Option Bytes → Bytes → FileState → FileState
written_to unsynced content s = record s { temporary = some content; flushed = unsynced }

-- `sync_all`
abbrev contents_synced : FileState → FileState
contents_synced s = record s { flushed = s.temporary }

write_stage : Faults → Bytes → (Bytes → FcpResult (Unit {0})) → FileState → Progress
unfolding verify_stage
write_stage f bytes verify s = elim f.write_all [
  | some e ↦ stopped e (written_to f.unsynced f.partial s)
  | none ↦ elim f.sync_all [
    | some e ↦ stopped e (written_to f.unsynced (stored_bytes f bytes) s)
    | none ↦
        verify_stage f verify (stored_bytes f bytes)
          (contents_synced (written_to f.unsynced (stored_bytes f bytes) s))
  ]
]

-- `create_new` refuses a temporary file that is there already.
open_stage : Faults → Bytes → (Bytes → FcpResult (Unit {0})) → FileState → Progress
unfolding write_stage
open_stage f bytes verify s = elim s.temporary [
  | some _ ↦ stopped io s
  | none ↦ elim f.open_temporary [ some e ↦ stopped e s | none ↦ write_stage f bytes verify s ]
]

-- `if result.is_err() && temporary.exists() { let _ = fs::remove_file(&temporary); }`
clean_up : Faults → FileState → FileState
clean_up f s = if f.can_remove then record s { temporary = none; flushed = none } else s

conclude : Faults → Progress → WriteOutcome × FileState
unfolding clean_up
conclude f p = elim p.result [
  | ok _ ↦ (success committed, p.file)
  | err e ↦
      (failure (if p.replaced then durability_unknown else not_committed) e, clean_up f p.file)
]

unfoldable pub write_verified_durable :
    Faults → Bytes → (Bytes → FcpResult (Unit {0})) → FileState → WriteOutcome × FileState
unfolding open_stage conclude
write_verified_durable f bytes verify s =
    if f.has_parent
    then elim f.create_dir [
      | some e ↦ (failure not_committed e, s)
      | none ↦
          if f.has_file_name
          then conclude f (open_stage f bytes verify s)
          else (failure not_committed (format no_file_name), s)
    ]
    else (failure not_committed (format no_parent_directory), s)

abbrev outcome_result : WriteOutcome × FileState → FcpResult (Unit {0}) × FileState
outcome_result (success _, s) = (ok tt, s)
outcome_result (failure _ e, s) = (err e, s)

unfoldable pub write_verified :
    Faults → Bytes → (Bytes → FcpResult (Unit {0})) → FileState → FcpResult (Unit {0}) × FileState
write_verified f bytes verify s = outcome_result (write_verified_durable f bytes verify s)

-- `sha256` is the digest of the sha2 crate.
module _ (sha256 : Bytes → Bytes) where
  unfoldable pub classify_bytes : Option Bytes → Bytes → Bytes → ObjectClassification
  classify_bytes previous_digest target_digest bytes =
      if bytes_eq (sha256 bytes) target_digest
      then target
      else if eqb OptionBytes-discrete previous_digest (some (sha256 bytes))
      then previous
      else neither

  unfoldable pub classify_object :
      Option FcpError → FileState → Option Bytes → Bytes → FcpResult ObjectClassification
  unfolding classify_bytes
  classify_object fault s previous_digest target_digest = elim fault [
    | some e ↦ err e
    | none ↦ elim s.target [
      | none ↦ ok missing
      | some bytes ↦ ok (classify_bytes previous_digest target_digest bytes)
    ]
  ]

-- Every call of the operating system succeeds.
abbrev pub no_faults : Faults
no_faults = record {
  has_parent = true;
  has_file_name = true;
  create_dir = none;
  open_temporary = none;
  write_all = none;
  partial = [];
  stored = none;
  unsynced = none;
  sync_all = none;
  read_back = none;
  replace = none;
  sync_directory = none;
  can_remove = true;
  read_previous = none;
  reread = none;
}

-- The answers to the coming writes, one record for each; past the end nothing fails.
abbrev pub next_faults : List Faults → Faults
next_faults [] = no_faults
next_faults (f ∷ fs) = f

abbrev pub later_faults : List Faults → List Faults
later_faults [] = []
later_faults (f ∷ fs) = fs
