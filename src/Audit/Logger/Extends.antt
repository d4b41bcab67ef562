-- ===== src/Audit/Logger/Extends.antt =====
-- A chain with one more line.
use fursoy_vault.Prelude.{
  Bytes, ℕ, ◌≤◌, ◌<◌, true, false, List, [], ◌∷◌, ◌++◌, ◌≡◌, inl, inr, arith, ap, sym, ◌∙◌, ◌==◌,
  ltb, Bool-cases,
}
use mathlib.Core.List.{append_assoc, append-nil}
use fursoy_vault.Audit.Lines.{
  newline, lines_of, is_whole, IsLine, line_alone, lines_of-append, is_whole-append,
}
use fursoy_vault.Audit.Chain.{Segment}
use fursoy_vault.Audit.Chain.Authentic.{all_lines, AllWhole}
use fursoy_vault.Audit.Logger.{append_to}

-- The days of the files increase, and end with `day` at most.
abbrev pub DaysUpTo : ℕ → List Segment → Type 0
DaysUpTo day [] = Unit {0}
DaysUpTo day (s ∷ []) = s.day ≤ day
DaysUpTo day (s ∷ t ∷ ss) = (s.day < t.day) × DaysUpTo day (t ∷ ss)

first_day : (day : ℕ) (s t : Segment) (ss : List Segment) → DaysUpTo day (s ∷ t ∷ ss) → s.day < day
first_day day s t [] h = omega arith
first_day day s t (u ∷ ss) h = omega (arith, first_day day t u ss h.1)

abbrev pub Extends : ℕ → Bytes → List Segment → Type 0
Extends day l ss =
    (all_lines (append_to day (l ++ newline ∷ []) ss) ≡ all_lines ss ++ l ∷ [])
    × AllWhole (append_to day (l ++ newline ∷ []) ss)

later_file :
    (day : ℕ) (l : Bytes) (s : Segment) (ss : List Segment)
    → s.day < day
    → is_whole s.bytes ≡ true
    → Extends day l ss
    → Extends day l (s ∷ ss)
unfolding append_to
later_file day l s ss d w (e, v) =
    let n : (day == s.day) ≡ false = ground arith in
    let b : ltb day s.day ≡ false = ground arith in
    (
      rw (append_to, n, b) (rw e (sym (append_assoc (lines_of s.bytes) (all_lines ss) (l ∷ [])))),
      rw (append_to, n, b) (w, v),
    )

no_file : (day : ℕ) (l : Bytes) → IsLine l → Extends day l []
unfolding append_to
no_file day l k =
    (append-nil (lines_of (l ++ newline ∷ [])) ∙ line_alone l k, (is_whole-append [] l, tt))

same_file :
    (day : ℕ) (l : Bytes) (s : Segment)
    → (day == s.day) ≡ true
    → is_whole s.bytes ≡ true
    → IsLine l
    → Extends day l (s ∷ [])
unfolding append_to
same_file day l s t w k = rw t (
  append-nil (lines_of (s.bytes ++ (l ++ newline ∷ [])))
      ∙ lines_of-append s.bytes l w k
      ∙ ap (λ z. z ++ l ∷ []) (sym (append-nil (lines_of s.bytes))),
  (is_whole-append s.bytes l, tt),
)

-- The append of a line to the file of the last day, or of a later one, is one more line at the end.
pub append_to-last :
    (day : ℕ) (l : Bytes) (ss : List Segment)
    → DaysUpTo day ss
    → AllWhole ss
    → IsLine l
    → Extends day l ss
append_to-last day l [] d w k = no_file day l k
append_to-last day l (s ∷ []) d w k = elim (Bool-cases (day == s.day)) [
  | inl t ↦ same_file day l s t w.0 k
  | inr t ↦ later_file day l s [] (ground arith) w.0 (no_file day l k)
]
append_to-last day l (s ∷ t ∷ ss) d w k =
    later_file day l s (t ∷ ss) (first_day day s t ss d) w.0
      (append_to-last day l (t ∷ ss) d.1 w.1 k)

pub days_later :
    (day day' : ℕ) (ss : List Segment) → day ≤ day' → DaysUpTo day ss → DaysUpTo day' ss
days_later day day' [] le d = tt
days_later day day' (s ∷ []) le d = omega arith
days_later day day' (s ∷ t ∷ ss) le d = (d.0, days_later day day' (t ∷ ss) le d.1)

last_day : (day : ℕ) (t : Segment) (ss : List Segment) → DaysUpTo day (t ∷ ss) → t.day ≤ day
last_day day t [] d = d
last_day day t (u ∷ ss) d = omega (arith, first_day day t u ss d)

-- The days stay in order.
pub append_to-DaysUpTo :
    (day : ℕ) (bytes : Bytes) (ss : List Segment)
    → DaysUpTo day ss
    → DaysUpTo day (append_to day bytes ss)
unfolding append_to
append_to-DaysUpTo day bytes [] d = omega arith
append_to-DaysUpTo day bytes (s ∷ []) d = ground arith
append_to-DaysUpTo day bytes (s ∷ t ∷ ss) d =
    let before = first_day day s t ss d in
    let below = last_day day t ss d.1 in
    let n : (day == s.day) ≡ false = ground arith in
    let b : ltb day s.day ≡ false = ground arith in
    let b' : ltb day t.day ≡ false = ground arith in
    let rest = append_to-DaysUpTo day bytes (t ∷ ss) d.1 in
    elim (Bool-cases (day == t.day)) [
      | inl e ↦ rw (append_to, n, b, e) (d.0, rw (append_to, e) at rest)
      | inr e ↦
          rw (append_to, n, b, e, b')
            (head_kept (append_to day bytes ss) (rw (append_to, e, b') at rest))
    ]
  where
    head_kept : (rest : List Segment) → DaysUpTo day (t ∷ rest) → DaysUpTo day (s ∷ t ∷ rest)
    head_kept rest h = (d.0, h)
