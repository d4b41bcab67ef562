-- ===== src/Prelude/Words.antt =====
-- Fixed-width little-endian words, as `to_le_bytes` and `from_le_bytes` of the standard library.
use Prim.Native.Nat.{ℕ, zero, suc, ◌+◌, ◌*◌, ◌/◌, ◌%◌, ◌^◌, ◌<◌}
use mathlib.Core.Path.{◌≡◌, refl, ap}
use mathlib.Core.List.{List, [], ◌∷◌}
use native.Mathlib.Omega.{arith}
use native.Mathlib.Nat.{pow-suc}
use fursoy_vault.Prelude.Lists.{length, All}

-- `le_bytes k n` is the k-byte little-endian form of n.
abbrev pub le_bytes : ℕ → ℕ → List ℕ
le_bytes zero n = []
le_bytes (suc k) n = n % 256 ∷ le_bytes k (n / 256)

abbrev pub from_le : List ℕ → ℕ
from_le [] = 0
from_le (b ∷ bs) = b + 256 * from_le bs

abbrev pub IsByte : ℕ → Type 0
IsByte b = b < 256

pub length-le_bytes : (k n : ℕ) → length (le_bytes k n) ≡ k
length-le_bytes zero n = refl
length-le_bytes (suc k) n = omega (arith, length-le_bytes k (n / 256))

pub le_bytes-IsByte : (k n : ℕ) → All IsByte (le_bytes k n)
le_bytes-IsByte zero n = tt
le_bytes-IsByte (suc k) n = (omega arith, le_bytes-IsByte k (n / 256))

pub from_le-le_bytes : (k n : ℕ) → n < 256 ^ k → from_le (le_bytes k n) ≡ n
from_le-le_bytes zero n h = omega arith
from_le-le_bytes (suc k) n h =
    let h' : n < 256 ^ k * 256 = rw pow-suc at h in
    omega (arith, from_le-le_bytes k (n / 256) (omega arith))

pub le_bytes-from_le :
    (k : ℕ) (bs : List ℕ) → length bs ≡ k → All IsByte bs → le_bytes k (from_le bs) ≡ bs
le_bytes-from_le zero [] e h = refl
le_bytes-from_le zero (b ∷ bs) e h = absurd (omega arith)
le_bytes-from_le (suc k) [] e h = absurd (omega arith)
le_bytes-from_le (suc k) (b ∷ bs) e (hb, hs) =
    let q : (b + 256 * from_le bs) / 256 ≡ from_le bs = omega arith in
    let r : (b + 256 * from_le bs) % 256 ≡ b = omega arith in
    rw (q, r) (ap (◌∷◌ b) (le_bytes-from_le k bs (omega arith) hs))
