-- ===== src/Operation/Journal/PowerLoss.antt =====
-- What a loss of power leaves of the journal, where the flushes of the directory succeed.
use fursoy_vault.Prelude.{
  Bytes, Uuid, Option, none, some, List, [], ◌∷◌, ◌≡◌, ◌⊎◌, inl, inr, refl, sym, ap, All,
}
use mathlib.Core.Path.{subst}
use fursoy_vault.Error.{ok, ok-injective, >>=-eq-ok}
use fursoy_vault.AtomicFile.{FileState, Faults, settled, next_faults, later_faults}
use fursoy_vault.AtomicFile.Outcomes.{survivors_settled, survivors_written}
use fursoy_vault.Operation.Model.{Externals, journal_validate}
use fursoy_vault.Operation.Journal.{JournalStore, open_store, read_journal}
use fursoy_vault.Operation.Journal.Steps.{Change, Wrote}
use fursoy_vault.Operation.Journal.History.{Command, after, after-Effect, run}
use fursoy_vault.Operation.Journal.Restart.{
  IsConsistent, Follows-moved, run-IsConsistent, open_store-IsConsistent, restart,
}

-- Every flush of the directory succeeds; any other call may fail.
abbrev pub Flushes : List Faults → Type 0
Flushes = All (λ f. f.sync_directory ≡ none)

-- The path holds what the medium keeps.
abbrev pub IsSettled : FileState → Type 0
IsSettled file = file.survivors ≡ file.target ∷ []

-- One of what the medium may keep.
abbrev Among : Option Bytes → List (Option Bytes) → Type 0
Among kept [] = ⊥
Among kept (contents ∷ older) = (kept ≡ contents) ⊎ Among kept older

-- What the path may hold after a loss of power.
abbrev pub MayKeep : FileState → Option Bytes → Type 0
MayKeep file kept = Among kept file.survivors

next-Flushes : (faults : List Faults) → Flushes faults → (next_faults faults).sync_directory ≡ none
next-Flushes [] a = refl
next-Flushes (f ∷ fs) a = a.0

later-Flushes : (faults : List Faults) → Flushes faults → Flushes (later_faults faults)
later-Flushes [] a = tt
later-Flushes (f ∷ fs) a = a.1

Wrote-IsSettled :
    (s s' : JournalStore)
    → Wrote s s'
    → Flushes s.faults
    → IsSettled s.file
    → Flushes s'.faults × IsSettled s'.file
Wrote-IsSettled s s' (inl (file, inl faults)) a h =
    (subst Flushes (sym faults) a, subst IsSettled (sym file) h)
Wrote-IsSettled s s' (inl (file, inr faults)) a h =
    (subst Flushes (sym faults) (later-Flushes s.faults a), subst IsSettled (sym file) h)
Wrote-IsSettled s s' (inr (bytes, verify, file, faults)) a h = (
  subst Flushes (sym faults) (later-Flushes s.faults a),
  subst IsSettled (sym file)
      (survivors_settled (next_faults s.faults) bytes verify s.file (next-Flushes s.faults a) h),
)

kept_target :
    (file : FileState) (kept : Option Bytes)
    → IsSettled file
    → MayKeep file kept
    → kept ≡ file.target
kept_target file kept h m = elim (subst (Among kept) h m) [ inl e ↦ e | inr n ↦ absurd n ]

-- What a path that was settled may hold after one command, its old contents among them.
kept_after :
    (s s' : JournalStore) (kept : Option Bytes)
    → Wrote s s'
    → IsSettled s.file
    → MayKeep s'.file kept
    → (kept ≡ s'.file.target) ⊎ ((kept ≡ none) ⊎ (kept ≡ s.file.target))
kept_after s s' kept (inl (file, _)) h m =
    inl (kept_target s'.file kept (subst IsSettled (sym file) h) m)
kept_after s s' kept (inr (bytes, verify, file, _)) h m =
    elim (survivors_written (next_faults s.faults) bytes verify s.file h) [
      | inl e ↦ inl (kept_target s'.file kept (subst IsSettled (sym file) e) m)
      | inr e ↦
          elim (subst (Among kept)
            (subst (λ (z : FileState). z.survivors ≡ z.target ∷ none ∷ s.file.target ∷ [])
              (sym file) e)
            m) [
              | inl t ↦ inl t
              | inr (inl n) ↦ inr (inl n)
              | inr (inr (inl t)) ↦ inr (inr t)
              | inr (inr (inr n)) ↦ absurd n
            ]
    ]

-- A start on what survived finds this journal or one change more.
abbrev pub Finds : Externals → Option Bytes → List Faults → JournalStore → Type 0
Finds x kept later t =
    (s' : JournalStore) × (open_store x (settled kept) none later t.account_group_id ≡ ok s')
    × ((s'.journal ≡ t.journal) ⊎ Change t.journal s'.journal)

module _ (x : Externals) where
  run-IsSettled :
      (cs : List Command) (s : JournalStore)
      → Flushes s.faults
      → IsSettled s.file
      → IsSettled (run x cs s).file
  unfolding run
  run-IsSettled [] s a h = h
  run-IsSettled (c ∷ cs) s a h =
      let (a', h') = Wrote-IsSettled s (after x c s) (after-Effect x c s).disk a h in
      run-IsSettled cs (after x c s) a' h'

  start :
      (t : JournalStore) (later : List Faults) (kept : Option Bytes)
      → IsConsistent x t
      → kept ≡ t.file.target
      → Finds x kept later t
  start t later kept k e =
      restart x (record t { file = settled kept }) later
        (record {
          valid = k.valid;
          follows = Follows-moved x t (record t { file = settled kept }) refl refl e k.follows;
        })

  opened_file :
      (file : FileState) (faults : List Faults) (group : Uuid) (s : JournalStore)
      → open_store x file none faults group ≡ ok s
      → (s.file ≡ file) × (s.faults ≡ faults)
  unfolding open_store
  opened_file file faults group s h =
      let (j, _, h) = >>=-eq-ok (read_journal x file none group) _ h in
      let (_, _, h) = >>=-eq-ok (journal_validate x j group) _ h in
      (
        sym (ap (λ (z : JournalStore). z.file) (ok-injective h)),
        sym (ap (λ (z : JournalStore). z.faults) (ok-injective h)),
      )

  -- Loss of power: a store is opened on a settled file, any commands run, and every flush of the
  -- directory succeeds while every other call may fail or store other bytes. Whatever of the path then
  -- survives, a start on it succeeds and finds the journal that was in memory or one change more.
  pub power_loss_consistent :
      (file : FileState) (faults later : List Faults) (group : Uuid) (s : JournalStore)
      (cs : List Command) (kept : Option Bytes)
      → IsSettled file
      → Flushes faults
      → open_store x file none faults group ≡ ok s
      → MayKeep (run x cs s).file kept
      → Finds x kept later (run x cs s)
  power_loss_consistent file faults later group s cs kept h a o m =
      let (same, answers) = opened_file file faults group s o in
      let left =
        run-IsSettled cs s (subst Flushes (sym answers) a) (subst IsSettled (sym same) h) in
      start (run x cs s) later kept
        (run-IsConsistent x cs s (open_store-IsConsistent x file faults group s o))
        (kept_target (run x cs s).file kept left m)

  -- Loss of power inside a command: the same, and then one more command runs against any answers, in
  -- which also the flush of the directory may fail. Unless the path survives with no file at all, a
  -- start on it succeeds and finds the journal from before the command or from after it, or one
  -- change more than that.
  pub power_loss_in_command :
      (file : FileState) (faults now later : List Faults) (group : Uuid) (s : JournalStore)
      (cs : List Command) (c : Command) (kept : Bytes)
      → IsSettled file
      → Flushes faults
      → open_store x file none faults group ≡ ok s
      → MayKeep (after x c (record (run x cs s) { faults = now })).file (some kept)
      → let t = record (run x cs s) { faults = now } in
        Finds x (some kept) later t ⊎ Finds x (some kept) later (after x c t)
  unfolding run
  power_loss_in_command file faults now later group s cs c kept h a o m =
      let (same, answers) = opened_file file faults group s o in
      let left =
        run-IsSettled cs s (subst Flushes (sym answers) a) (subst IsSettled (sym same) h) in
      let t = record (run x cs s) { faults = now } in
      let k = run-IsConsistent x cs s (open_store-IsConsistent x file faults group s o) in
      let before : IsConsistent x t = record {
        valid = k.valid;
        follows = Follows-moved x (run x cs s) t refl refl refl k.follows;
      } in
      elim (kept_after t (after x c t) (some kept) (after-Effect x c t).disk left m) [
        | inl e ↦
            inr (start (after x c t) later (some kept) (run-IsConsistent x (c ∷ []) t before) e)
        | inr (inl n) ↦ absurd (cc n)
        | inr (inr e) ↦ inl (start t later (some kept) before e)
      ]
