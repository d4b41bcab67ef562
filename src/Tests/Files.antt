-- ===== src/Tests/Files.antt =====
-- Writes of a file, with and without faults.
use fursoy_vault.Prelude.{Bytes, Option, none, some, List, [], ◌∷◌, ◌≡◌, ◌⊎◌, refl, true}
use fursoy_vault.Error.{FcpResult, ok, io}
use fursoy_vault.AtomicFile.{Faults, no_faults, write_verified_durable, classify_object, target}
use fursoy_vault.AtomicFile.Outcomes.{
  Promise, write_verified_durable-Promise, IsQuiet, Means, classify_object-Means,
}
use fursoy_vault.Tests.Fixtures.{file_with}

abbrev accept : Bytes → FcpResult (Unit {0})
accept bytes = ok tt

-- The directory cannot be synced after the replacement.
abbrev lost_directory : Faults
lost_directory = record no_faults { sync_directory = some io }

abbrev new_bytes : Bytes
new_bytes = 1 ∷ 2 ∷ []

write_verified_durable-Promise_example :
    Promise accept new_bytes
      (file_with [])
      (write_verified_durable lost_directory new_bytes accept (file_with [])).0
      (write_verified_durable lost_directory new_bytes accept (file_with [])).1
write_verified_durable-Promise_example =
    write_verified_durable-Promise lost_directory new_bytes accept (file_with [])

pub no_faults-IsQuiet : IsQuiet no_faults
no_faults-IsQuiet = record {
  parent = refl;
  file_name = refl;
  dir = refl;
  open_ok = refl;
  write_ok = refl;
  as_written = refl;
  sync_ok = refl;
  read_ok = refl;
  replace_ok = refl;
  directory_ok = refl;
  previous_ok = refl;
}

classify_object-Means_example : Means (λ b. b) (file_with new_bytes) none new_bytes target
unfolding classify_object fursoy_vault.Prelude.Bytes-discrete fursoy_vault.Prelude.ℕ_discrete
classify_object-Means_example =
    classify_object-Means (λ b. b) none (file_with new_bytes) none new_bytes refl
