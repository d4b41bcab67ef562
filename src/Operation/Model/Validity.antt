-- ===== src/Operation/Model/Validity.antt =====
-- What `journal_validate` decides: the invariant of a journal, in plain terms.
use fursoy_vault.Prelude.{
  Uuid, is_none, Bytes-discrete, ℕ, ◌≤◌, ◌<◌, false, List, [], ◌∷◌, ◌≡◌, ◌≢◌, ◌↔◌, ◌⊎◌, refl, arith,
  eqb_refl, ◌==◌, any,
}
use fursoy_vault.Error.{ok, >>=-eq-ok}
use fursoy_vault.Operation.Model.{
  Externals, JournalOperation, OperationJournal, operation_journal_version, needs_snapshot,
  request_of, fingerprint, check_operation, check_operations, journal_validate,
}

abbrev pub Increasing : ℕ → List JournalOperation → Type 0
Increasing previous [] = Unit {0}
Increasing previous (o ∷ os) = (previous < o.sequence) × Increasing o.sequence os

abbrev pub last_sequence : ℕ → List JournalOperation → ℕ
last_sequence previous [] = previous
last_sequence previous (o ∷ os) = last_sequence o.sequence os

abbrev pub Unlike : Uuid → List JournalOperation → Type 0
Unlike id [] = Unit {0}
Unlike id (o ∷ os) = (id ≢ o.operation_id) × Unlike id os

abbrev pub Distinct : List JournalOperation → Type 0
Distinct [] = Unit {0}
Distinct (o ∷ os) = Unlike o.operation_id os × Distinct os

-- One recorded operation, apart from its neighbours.
pub record IsSound (x : Externals) (group : Uuid) (o : JournalOperation) : Type 0 where
  pub id_set : o.operation_id ≢ 0
  pub bound : fingerprint x (request_of o) group ≡ ok o.request_fingerprint
  pub snapshot_kept : (needs_snapshot o.phase ≡ false) ⊎ (is_none o.snapshot ≡ false)

abbrev pub AllSound : Externals → Uuid → List JournalOperation → Type 0
AllSound x group [] = Unit {0}
AllSound x group (o ∷ os) = IsSound x group o × AllSound x group os

pub record IsValid (x : Externals) (group : Uuid) (j : OperationJournal) : Type 0 where
  pub version_known : j.version ≡ operation_journal_version
  pub group_matches : j.account_group_id ≡ group
  pub increasing : Increasing 0 j.operations
  pub high_water : last_sequence 0 j.operations ≡ j.sequence_high_water
  pub distinct : Distinct j.operations
  pub sound : AllSound x group j.operations

abbrev Avoids : List Uuid → List JournalOperation → Type 0
Avoids seen [] = Unit {0}
Avoids seen (o ∷ os) = (any (λ u. u == o.operation_id) seen ≡ false) × Avoids seen os

pub last_sequence-le :
    (previous : ℕ) (os : List JournalOperation)
    → Increasing previous os
    → previous ≤ last_sequence previous os
last_sequence-le previous [] h = omega arith
last_sequence-le previous (o ∷ os) (lt, h) = omega (arith, last_sequence-le o.sequence os h)

Avoids-cons :
    (id : Uuid) (seen : List Uuid) (os : List JournalOperation)
    → Avoids (id ∷ seen) os ↔ (Unlike id os × Avoids seen os)
Avoids-cons id seen [] = (λ _. (tt, tt), λ _. tt)
Avoids-cons id seen (o ∷ os) = (
  λ h. ground (arith, (Avoids-cons id seen os).0 h.1),
  λ h. ground (arith, (Avoids-cons id seen os).1 (h.0.1, h.1.1)),
)

module _ (x : Externals) (group : Uuid) where
  -- One accepted round of the loop.
  record Accepted (high_water previous : ℕ) (seen : List Uuid) (o : JournalOperation) : Type 0 where
    after : previous < o.sequence
    below : o.sequence ≤ high_water
    unseen : any (λ u. u == o.operation_id) seen ≡ false
    alone : IsSound x group o

  check_operation-Accepted :
      (high_water previous : ℕ) (seen : List Uuid) (o : JournalOperation)
      → check_operation x group high_water previous seen o ≡ ok tt
      → Accepted high_water previous seen o
  unfolding check_operation
  check_operation-Accepted high_water previous seen o h = ground arith

  Accepted-check_operation :
      (high_water previous : ℕ) (seen : List Uuid) (o : JournalOperation)
      → Accepted high_water previous seen o
      → check_operation x group high_water previous seen o ≡ ok tt
  unfolding check_operation
  Accepted-check_operation high_water previous seen o h =
      ground (arith, eqb_refl Bytes-discrete o.request_fingerprint)

  -- What the loop accepts from a given point on.
  record Loop (high_water previous : ℕ) (seen : List Uuid) (os : List JournalOperation)
      : Type 0 where
    increasing : Increasing previous os
    high_water_met : last_sequence previous os ≡ high_water
    avoids : Avoids seen os
    distinct : Distinct os
    sound : AllSound x group os

  check_operations-Loop :
      (high_water previous : ℕ) (seen : List Uuid) (os : List JournalOperation)
      → check_operations x group high_water previous seen os ≡ ok tt
      → Loop high_water previous seen os
  unfolding check_operations
  check_operations-Loop high_water previous seen [] h = ground arith
  check_operations-Loop high_water previous seen (o ∷ os) h =
      let (_, p, q) = >>=-eq-ok (check_operation x group high_water previous seen o) _ h in
      let a = check_operation-Accepted high_water previous seen o p in
      let l = check_operations-Loop high_water o.sequence (o.operation_id ∷ seen) os q in
      let s = (Avoids-cons o.operation_id seen os).0 l.avoids in
      record {
        increasing = (a.after, l.increasing);
        high_water_met = l.high_water_met;
        avoids = (a.unseen, s.1);
        distinct = (s.0, l.distinct);
        sound = (a.alone, l.sound);
      }

  Loop-check_operations :
      (high_water previous : ℕ) (seen : List Uuid) (os : List JournalOperation)
      → Loop high_water previous seen os
      → check_operations x group high_water previous seen os ≡ ok tt
  unfolding check_operations
  Loop-check_operations high_water previous seen [] l = ground arith
  Loop-check_operations high_water previous seen (o ∷ os) l =
      rw (Accepted-check_operation high_water previous seen o accepted)
        (Loop-check_operations high_water o.sequence (o.operation_id ∷ seen) os later)
    where
      accepted : Accepted high_water previous seen o
      accepted = record {
        after = l.increasing.0;
        below = omega (arith, last_sequence-le o.sequence os l.increasing.1, l.high_water_met);
        unseen = l.avoids.0;
        alone = l.sound.0;
      }

      later : Loop high_water o.sequence (o.operation_id ∷ seen) os
      later = record {
        increasing = l.increasing.1;
        high_water_met = l.high_water_met;
        avoids = (Avoids-cons o.operation_id seen os).1 (l.distinct.0, l.avoids.1);
        distinct = l.distinct.1;
        sound = l.sound.1;
      }

Avoids-nil : (os : List JournalOperation) → Avoids [] os
Avoids-nil [] = tt
Avoids-nil (o ∷ os) = (refl, Avoids-nil os)

-- A journal that `validate` accepts satisfies the invariant.
pub journal_validate-IsValid :
    (x : Externals) (j : OperationJournal) (group : Uuid)
    → journal_validate x j group ≡ ok tt
    → IsValid x group j
unfolding journal_validate
journal_validate-IsValid x j group h =
    let (_, p, q) =
      >>=-eq-ok _ (λ _. check_operations x group j.sequence_high_water 0 [] j.operations) h in
    let l = check_operations-Loop x group j.sequence_high_water 0 [] j.operations q in
    record {
      version_known = ground arith;
      group_matches = ground arith;
      increasing = l.increasing;
      high_water = l.high_water_met;
      distinct = l.distinct;
      sound = l.sound;
    }

-- A journal that satisfies the invariant is accepted.
pub IsValid-journal_validate :
    (x : Externals) (j : OperationJournal) (group : Uuid)
    → IsValid x group j
    → journal_validate x j group ≡ ok tt
unfolding journal_validate
IsValid-journal_validate x j group v =
    ground (arith, Loop-check_operations x group j.sequence_high_water 0 [] j.operations loop)
  where
    loop : Loop x group j.sequence_high_water 0 [] j.operations
    loop = record {
      increasing = v.increasing;
      high_water_met = v.high_water;
      avoids = Avoids-nil j.operations;
      distinct = v.distinct;
      sound = v.sound;
    }

-- `validate` accepts exactly the journals of the known version and the expected group whose
-- sequences increase strictly up to the high-water mark, whose ids are distinct and not nil, whose
-- fingerprints are recomputed, and whose committed operations carry a snapshot binding.
pub journal_validate_iff :
    (x : Externals) (j : OperationJournal) (group : Uuid)
    → (journal_validate x j group ≡ ok tt) ↔ IsValid x group j
journal_validate_iff x j group =
    (journal_validate-IsValid x j group, IsValid-journal_validate x j group)
