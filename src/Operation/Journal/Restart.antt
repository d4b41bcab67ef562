-- ===== src/Operation/Journal/Restart.antt =====
-- What a restart finds: the store is opened again from the file that the commands left.
use fursoy_vault.Prelude.{
  Uuid, none, List, [], ◌∷◌, ◌≡◌, ◌⊎◌, inl, inr, refl, Option-cases, sym, ◌∙◌,
}
use mathlib.Core.Path.{subst}
use fursoy_vault.Error.{ok, ok-injective, ◌>>=◌, >>=-eq-ok}
use fursoy_vault.AtomicFile.{FileState, Faults}
use fursoy_vault.Operation.Model.{OperationJournal, Externals, journal_empty, journal_validate}
use fursoy_vault.Operation.Model.Validity.{IsValid, journal_validate-IsValid}
use fursoy_vault.Operation.Journal.{JournalStore, read_journal, open_store}
use fursoy_vault.Operation.Journal.Persist.{Holds}
use fursoy_vault.Operation.Journal.Steps.{Change, Effect}
use fursoy_vault.Operation.Journal.History.{Command, after, after-Effect, run}

-- What the disk holds beside a journal in memory: the same journal, no file yet where the journal
-- is empty, or a journal that is one change ahead.
pub data Follows (x : Externals) (s : JournalStore) : Type 0 where
  absent : s.file.target ≡ none → s.journal ≡ journal_empty s.account_group_id → Follows x s
  same : Holds x s.file s.journal → Follows x s
  ahead :
      (next : OperationJournal)
      → Change s.journal next
      → Holds x s.file next
      → journal_validate x next s.account_group_id ≡ ok tt
      → Follows x s

-- The invariant of a store: the journal in memory is valid, and the disk follows it.
pub record IsConsistent (x : Externals) (s : JournalStore) : Type 0 where
  pub valid : journal_validate x s.journal s.account_group_id ≡ ok tt
  pub follows : Follows x s

module _ (x : Externals) where
  pub Follows-moved :
      (s s' : JournalStore)
      → s'.account_group_id ≡ s.account_group_id
      → s'.journal ≡ s.journal
      → s'.file.target ≡ s.file.target
      → Follows x s
      → Follows x s'
  Follows-moved s s' g j t (absent a e) = absent (t ∙ a) (j ∙ e ∙ rw g)
  Follows-moved s s' g j t (same (b, h, d)) = same (b, t ∙ h, rw j d)
  Follows-moved s s' g j t (ahead next c (b, h, d) v) = ahead next (rw j c) (b, t ∙ h, d) (rw g v)

  Effect-IsConsistent : (s s' : JournalStore) → Effect x s s' → IsConsistent x s → IsConsistent x s'
  Effect-IsConsistent s s' e k = elim e.cases [
    | inl (j, inl t) ↦ record {
      valid = rw (j, e.same_group) k.valid;
      follows = Follows-moved s s' e.same_group j t k.follows;
    }
    | inl (j, inr (next, c, h, v)) ↦ record {
      valid = rw (j, e.same_group) k.valid;
      follows = ahead next (rw j c) h (rw e.same_group v);
    }
    | inr (c, v, h) ↦ record { valid = rw e.same_group v; follows = same h }
  ]

  pub run-IsConsistent :
      (cs : List Command) (s : JournalStore) → IsConsistent x s → IsConsistent x (run x cs s)
  unfolding run
  run-IsConsistent [] s k = k
  run-IsConsistent (c ∷ cs) s k =
      run-IsConsistent cs (after x c s) (Effect-IsConsistent s (after x c s) (after-Effect x c s) k)

  opened : FileState → List Faults → Uuid → OperationJournal → JournalStore
  opened file faults group j = record {
    file = file;
    faults = faults;
    account_group_id = group;
    journal = j;
  }

  validated-opened :
      (file : FileState) (faults : List Faults) (group : Uuid) (j : OperationJournal)
      (s : JournalStore)
      → Follows x (opened file faults group j)
      → (journal_validate x j group >>= λ _. ok (opened file faults group j)) ≡ ok s
      → IsConsistent x s
  unfolding opened
  validated-opened file faults group j s f h =
      let (_, v, e) = >>=-eq-ok (journal_validate x j group) _ h in
      subst (IsConsistent x) (ok-injective e) (record { valid = v; follows = f })

  read_journal-Follows :
      (file : FileState) (faults : List Faults) (group : Uuid) (j : OperationJournal)
      → read_journal x file none group ≡ ok j
      → Follows x (opened file faults group j)
  unfolding read_journal opened
  read_journal-Follows file faults group j h = elim (Option-cases file.target) [
    | inl e ↦ absent e (sym (ok-injective (rw (e, read_journal) at h)))
    | inr (b, e) ↦ same (b, e, rw (e, read_journal) at h)
  ]

  pub open_store-IsConsistent :
      (file : FileState) (faults : List Faults) (group : Uuid) (s : JournalStore)
      → open_store x file none faults group ≡ ok s
      → IsConsistent x s
  unfolding open_store opened
  open_store-IsConsistent file faults group s h =
      let (j, d, h') = >>=-eq-ok (read_journal x file none group) _ h in
      validated-opened file faults group j s (read_journal-Follows file faults group j d) h'

  Holds-open_store :
      (file : FileState) (faults : List Faults) (group : Uuid) (j : OperationJournal)
      → Holds x file j
      → journal_validate x j group ≡ ok tt
      → open_store x file none faults group ≡ ok (opened file faults group j)
  unfolding open_store read_journal opened
  Holds-open_store file faults group j (b, e, d) v = rw (e, read_journal, d, v)

  pub restart :
      (s : JournalStore) (faults : List Faults)
      → IsConsistent x s
      → (s' : JournalStore) × (open_store x s.file none faults s.account_group_id ≡ ok s')
        × ((s'.journal ≡ s.journal) ⊎ Change s.journal s'.journal)
  unfolding opened
  restart s faults k = elim k.follows [
    | absent a e ↦ (opened s.file faults s.account_group_id s.journal, empty_opens a e, inl refl)
    | same h ↦ (
      opened s.file faults s.account_group_id s.journal,
      Holds-open_store s.file faults s.account_group_id s.journal h k.valid,
      inl refl,
    )
    | ahead next c h v ↦ (
      opened s.file faults s.account_group_id next,
      Holds-open_store s.file faults s.account_group_id next h v,
      inr c,
    )
  ]
    where
      empty_opens :
          s.file.target ≡ none
          → s.journal ≡ journal_empty s.account_group_id
          → open_store x s.file none faults s.account_group_id
            ≡ ok (opened s.file faults s.account_group_id s.journal)
      empty_opens a e = unfold open_store read_journal in rw (a, read_journal, ← e, k.valid)

  -- Restart of the process: after a store is opened and any commands have run against any answers of
  -- the operating system, a restart on the file that they left succeeds, and it finds the journal that
  -- was in memory or one change more.
  pub restart_consistent :
      (file : FileState) (faults later : List Faults) (group : Uuid) (s : JournalStore)
      (cs : List Command)
      → open_store x file none faults group ≡ ok s
      → let t = run x cs s in
        (s' : JournalStore) × (open_store x t.file none later t.account_group_id ≡ ok s')
        × ((s'.journal ≡ t.journal) ⊎ Change t.journal s'.journal)
  restart_consistent file faults later group s cs h =
      restart (run x cs s) later
        (run-IsConsistent cs s (open_store-IsConsistent file faults group s h))

  -- The journal in memory is valid at all times.
  pub run-IsValid :
      (file : FileState) (faults : List Faults) (group : Uuid) (s : JournalStore)
      (cs : List Command)
      → open_store x file none faults group ≡ ok s
      → IsValid x (run x cs s).account_group_id (run x cs s).journal
  run-IsValid file faults group s cs h =
      journal_validate-IsValid x _ _
        (run-IsConsistent cs s (open_store-IsConsistent file faults group s h)).valid
