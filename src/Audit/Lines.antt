-- ===== src/Audit/Lines.antt =====
-- The lines of an audit file: `bytes.split(b'\n')` without the empty ones.
use fursoy_vault.Prelude.{
  Bytes, ℕ, Bool, true, false, List, [], ◌∷◌, ◌++◌, ◌≡◌, ◌≢◌, refl, arith, ap, ◌∙◌, All, ◌==◌,
  if◌then◌else◌, Bool-cases, inl, inr,
}
use mathlib.Core.Path.{subst, sym}
use mathlib.Core.List.{append_assoc, append-nil}

abbrev pub newline : ℕ
newline = 10

abbrev push_front : ℕ → List Bytes → List Bytes
push_front b [] = (b ∷ []) ∷ []
push_front b (l ∷ ls) = (b ∷ l) ∷ ls

-- `split` on the newline: one piece more than there are newlines.
split_lines : Bytes → List Bytes
split_lines [] = [] ∷ []
split_lines (b ∷ bs) = if b == newline then [] ∷ split_lines bs else push_front b (split_lines bs)

abbrev non_empty : List Bytes → List Bytes
non_empty [] = []
non_empty ([] ∷ ls) = non_empty ls
non_empty ((b ∷ bs) ∷ ls) = (b ∷ bs) ∷ non_empty ls

unfoldable pub lines_of : Bytes → List Bytes
unfolding split_lines
lines_of bytes = non_empty (split_lines bytes)

-- `bytes.is_empty() || bytes.ends_with(b"\n")`
unfoldable pub is_whole : Bytes → Bool
is_whole [] = true
is_whole (b ∷ []) = b == newline
is_whole (b ∷ c ∷ bs) = is_whole (c ∷ bs)

-- A line that may stand in a file: not empty, and without a newline.
pub record IsLine (l : Bytes) : Type 0 where
  pub some_byte : l ≢ []
  pub no_newline : All (λ b. b ≢ newline) l

split_ne : (bs : Bytes) → split_lines bs ≢ []
unfolding split_lines
split_ne [] e = cc
split_ne (b ∷ bs) e = elim (Bool-cases (b == newline)) [
  | inl t ↦ cc (rw t at e)
  | inr t ↦ pushed (split_lines bs) (rw t at e)
]
  where
    pushed : (ls : List Bytes) → push_front b ls ≢ []
    pushed [] h = cc
    pushed (l ∷ ls) h = cc

push_front-append :
    (b : ℕ) (ls ms : List Bytes) → ls ≢ [] → push_front b (ls ++ ms) ≡ push_front b ls ++ ms
push_front-append b [] ms h = absurd (h refl)
push_front-append b (l ∷ ls) ms h = refl

split-append : (bs cs : Bytes) → split_lines (bs ++ newline ∷ cs) ≡ split_lines bs ++ split_lines cs
unfolding split_lines
split-append [] cs = refl
split-append (b ∷ bs) cs = elim (Bool-cases (b == newline)) [
  | inl t ↦ rw t (ap (◌∷◌ []) (split-append bs cs))
  | inr t ↦ rw t (
      ap (push_front b) (split-append bs cs)
      ∙ push_front-append b (split_lines bs) (split_lines cs) (split_ne bs))
]

split-line : (l : Bytes) → All (λ b. b ≢ newline) l → split_lines l ≡ l ∷ []
unfolding split_lines
split-line [] h = refl
split-line (b ∷ bs) h =
    let t : (b == newline) ≡ false = ground (arith, h.0) in
    rw t (ap (push_front b) (split-line bs h.1))

non_empty-append : (ls ms : List Bytes) → non_empty (ls ++ ms) ≡ non_empty ls ++ non_empty ms
non_empty-append [] ms = refl
non_empty-append ([] ∷ ls) ms = non_empty-append ls ms
non_empty-append ((b ∷ bs) ∷ ls) ms = cc (non_empty-append ls ms)

-- The front of a file that ends with a newline.
whole_front :
    (b : ℕ) (bs : Bytes) → is_whole (b ∷ bs) ≡ true → (f : Bytes) × (b ∷ bs ≡ f ++ newline ∷ [])
unfolding is_whole
whole_front b [] h = ([], ground (arith))
whole_front b (c ∷ bs) h = let (f, e) = whole_front c bs h in (b ∷ f, ap (◌∷◌ b) e)

one_line : (l : Bytes) → IsLine l → non_empty (l ∷ []) ≡ l ∷ []
one_line [] h = absurd (h.some_byte refl)
one_line (b ∷ bs) h = refl

pub line_alone : (l : Bytes) → IsLine l → lines_of (l ++ newline ∷ []) ≡ l ∷ []
unfolding lines_of
line_alone l h =
    rw (split-append l [], split-line l h.no_newline)
      (non_empty-append (l ∷ []) ([] ∷ []) ∙ rw (one_line l h) refl)

whole_append :
    (f l : Bytes)
    → IsLine l
    → lines_of ((f ++ newline ∷ []) ++ (l ++ newline ∷ [])) ≡ lines_of (f ++ newline ∷ []) ++ l ∷ []
unfolding lines_of
whole_append f l h =
    let front : non_empty (split_lines f) ++ non_empty ([] ∷ []) ≡ non_empty (split_lines f) =
      append-nil (non_empty (split_lines f)) in
    rw
      (
        append_assoc,
        split-append f (l ++ newline ∷ []),
        split-append f [],
        non_empty-append (split_lines f) (split_lines (l ++ newline ∷ [])),
        non_empty-append (split_lines f) ([] ∷ []),
        front,
      )
      (ap (◌++◌ (non_empty (split_lines f))) (line_alone l h))

-- A line that is appended to whole lines is one more line.
pub lines_of-append :
    (bs l : Bytes)
    → is_whole bs ≡ true
    → IsLine l
    → lines_of (bs ++ (l ++ newline ∷ [])) ≡ lines_of bs ++ l ∷ []
unfolding lines_of
lines_of-append [] l w h = line_alone l h
lines_of-append (b ∷ bs) l w h =
    let (f, e) = whole_front b bs w in
    subst (λ z. lines_of (z ++ (l ++ newline ∷ [])) ≡ lines_of z ++ l ∷ []) (sym e)
      (whole_append f l h)

is_whole_end : (f : Bytes) → is_whole (f ++ newline ∷ []) ≡ true
unfolding is_whole
is_whole_end [] = refl
is_whole_end (b ∷ []) = refl
is_whole_end (b ∷ c ∷ f) = is_whole_end (c ∷ f)

pub is_whole-append : (bs l : Bytes) → is_whole (bs ++ (l ++ newline ∷ [])) ≡ true
is_whole-append bs l = rw (← append_assoc bs l (newline ∷ [])) (is_whole_end (bs ++ l))
