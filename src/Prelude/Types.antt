-- ===== src/Prelude/Types.antt =====
-- The types that every part of the host shares: byte strings, identifiers and 64-bit counters. A
-- `Uuid` is the 128-bit number that it stands for, so that the nil UUID is 0.
use Prim.Native.Nat.{ℕ, ◌+◌}
use mathlib.Core.Bool.{Bool, true, false}
use mathlib.Core.Option.{Option, none, some}
use mathlib.Core.List.{List}
use native.Mathlib.Decide.{ℕ_discrete}
use fursoy_vault.Prelude.Tests.{◌==◌, ltb, eqb, if◌then◌else◌}

abbrev pub Bytes : Type 0
Bytes = List ℕ

unfoldable pub Bytes-discrete : Discrete Bytes
Bytes-discrete = hlevel ℕ_discrete

unfoldable pub OptionBytes-discrete : Discrete (Option Bytes)
OptionBytes-discrete = hlevel ℕ_discrete

abbrev pub bytes_eq : Bytes → Bytes → Bool
bytes_eq = eqb Bytes-discrete

abbrev pub Uuid : Type 0
Uuid = ℕ

abbrev pub is_nil : Uuid → Bool
is_nil u = u == 0

abbrev pub is_some_nil : Option Uuid → Bool
is_some_nil none = false
is_some_nil (some u) = is_nil u

abbrev pub is_none {ℓ} : {A : Type ℓ} → Option A → Bool
is_none none = true
is_none (some _) = false

-- One more than the largest u64, which is the largest usize too.
abbrev pub u64_limit : ℕ
u64_limit = 18446744073709551616

-- `checked_add(1)` on a u64.
abbrev pub checked_suc : ℕ → Option ℕ
checked_suc n = if ltb (n + 1) u64_limit then some (n + 1) else none
