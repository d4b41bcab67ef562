-- ===== src/Config/Owned.antt =====
-- What a configuration that is accepted is: no host belongs to two groups.
use fursoy_vault.Prelude.{
  Uuid, is_nil, ◌≤◌, Bool, true, false, not, ◌||◌, Option, List, [], ◌∷◌, ◌++◌, ◌==◌, ltb, any,
  length, All, if◌then◌else◌, ◌≡◌, ◌⊎◌, inl, inr, refl, arith, ap, sym, ◌∙◌, bytes_eq,
  Bytes-discrete, eqb→eq, eqb_refl, Bool-cases,
}
use mathlib.Core.List.{append-nil}
use fursoy_vault.Error.{FcpError, ok, >>=-eq-ok, refuse_if}
use fursoy_vault.Config.{
  Text, AccountGroup, AccountGroupsConfig, max_groups, is_blank, normalize_scope, ends_with,
  scopes_nest, is_valid_scope, validate_groups, config_validate,
}

refused_not : (test : Bool) (e : FcpError) (a : Unit {0}) → refuse_if test e ≡ ok a → test ≡ false
refused_not true e a h = absurd (cc h)
refused_not false e a h = refl

not-false : (b : Bool) → not b ≡ false → b ≡ true
not-false true h = refl
not-false false h = sym h

-- The front of a text before its end.
abbrev Front : Text → Text → Type 0
Front text end = (f : Text) × (text ≡ f ++ end)

ends_with-Front : (text end : Text) → ends_with text end ≡ true → Front text end
unfolding ends_with
ends_with-Front [] [] h = ([], refl)
ends_with-Front (t ∷ ts) [] h = (t ∷ ts, sym (append-nil (t ∷ ts)))
ends_with-Front [] (c ∷ cs) h = absurd (cc h)
ends_with-Front (t ∷ ts) (c ∷ cs) h = elim (Bool-cases (bytes_eq (t ∷ ts) (c ∷ cs))) [
  | inl e ↦ ([], eqb→eq Bytes-discrete (t ∷ ts) (c ∷ cs) e)
  | inr n ↦ let (f, e) = ends_with-Front ts (c ∷ cs) (rw n at h) in (t ∷ f, ap (◌∷◌ t) e)
]

front-ends_with : (f end : Text) → ends_with (f ++ end) end ≡ true
unfolding ends_with
front-ends_with [] [] = refl
front-ends_with [] (c ∷ cs) = rw (eqb_refl Bytes-discrete (c ∷ cs)) refl
front-ends_with (t ∷ f) [] = refl
front-ends_with (t ∷ f) (c ∷ cs) = elim (Bool-cases (bytes_eq (t ∷ (f ++ c ∷ cs)) (c ∷ cs))) [
  | inl e ↦ rw e refl
  | inr n ↦ rw n (front-ends_with f (c ∷ cs))
]

-- Of two ends of one text, one is an end of the other.
ends_nest : (f g a b : Text) → f ++ a ≡ g ++ b → Front a b ⊎ Front b a
ends_nest [] g a b e = inl (g, e)
ends_nest (c ∷ f) [] a b e = inr (c ∷ f, sym e)
ends_nest (c ∷ f) (d ∷ g) a b e = ends_nest f g a b (cc e)

-- The cookies of `host` lie under a scope: the scope itself, or a domain below it.
abbrev pub covers : Text → Text → Bool
covers host scope = bytes_eq host scope || ends_with host (b'.' ∷ scope)

covers-Front : (host scope : Text) → covers host scope ≡ true → Front (b'.' ∷ host) (b'.' ∷ scope)
covers-Front host scope h = elim (Bool-cases (bytes_eq host scope)) [
  | inl e ↦ ([], ap (◌∷◌ b'.') (eqb→eq Bytes-discrete host scope e))
  | inr n ↦
      let (f, e) = ends_with-Front host (b'.' ∷ scope) (rw n at h) in (b'.' ∷ f, ap (◌∷◌ b'.') e)
]

-- The scope a, with a dot, ends with the scope b, with a dot.
Front-nests :
    (a b : Text) → Front (b'.' ∷ a) (b'.' ∷ b) → (bytes_eq a b || ends_with a (b'.' ∷ b)) ≡ true
Front-nests a b ([], e) = let same : a ≡ b = cc e in rw (same, eqb_refl Bytes-discrete b) refl
Front-nests a b (c ∷ f, e) =
    let below : a ≡ f ++ b'.' ∷ b = cc e in
    rw (below, front-ends_with f (b'.' ∷ b)) (or_true (bytes_eq (f ++ b'.' ∷ b) b))
  where
    or_true : (b : Bool) → (b || true) ≡ true
    or_true true = refl
    or_true false = refl

-- Two scopes that cover one host nest.
covers-nest :
    (host a b : Text) → covers host a ≡ true → covers host b ≡ true → scopes_nest a b ≡ true
unfolding scopes_nest
covers-nest host a b h k =
    let (f, e) = covers-Front host a h in
    let (g, e') = covers-Front host b k in
    elim (ends_nest f g (b'.' ∷ a) (b'.' ∷ b) (sym e ∙ e')) [
      | inl n ↦ left (bytes_eq a b) (ends_with a (b'.' ∷ b)) _ (Front-nests a b n)
      | inr n ↦ elim (Bool-cases (bytes_eq b a)) [
        | inl s ↦ rw (eqb→eq Bytes-discrete b a s, eqb_refl Bytes-discrete a) refl
        | inr s ↦ right (bytes_eq a b) (ends_with a (b'.' ∷ b)) _ (rw s at (Front-nests b a n))
      ]
    ]
  where
    left : (p q r : Bool) → (p || q) ≡ true → (p || q || r) ≡ true
    left true q r h = refl
    left false true r h = refl
    left false false r h = cc

    right : (p q r : Bool) → r ≡ true → (p || q || r) ≡ true
    right true q r h = refl
    right false true r h = refl
    right false false r h = h

-- The groups that a host belongs to, and those with an id.
abbrev pub owners : Text → List AccountGroup → List AccountGroup
owners host [] = []
owners host (g ∷ gs) =
    if covers host (normalize_scope g.scope) then g ∷ owners host gs else owners host gs

abbrev pub with_id : Uuid → List AccountGroup → List AccountGroup
with_id id [] = []
with_id id (g ∷ gs) = if g.id == id then g ∷ with_id id gs else with_id id gs

any-append : (p : Text → Bool) (xs ys : List Text) → any p xs ≡ true → any p (xs ++ ys) ≡ true
any-append p [] ys h = absurd (cc h)
any-append p (x ∷ xs) ys h = elim (Bool-cases (p x)) [
  | inl t ↦ rw t refl
  | inr t ↦ rw t (any-append p xs ys (rw t at h))
]

any_last : (p : Text → Bool) (xs : List Text) (y : Text) → p y ≡ true → any p (xs ++ y ∷ []) ≡ true
any_last p [] y h = rw h refl
any_last p (x ∷ xs) y h = elim (Bool-cases (p x)) [
  | inl t ↦ rw t refl
  | inr t ↦ rw t (any_last p xs y h)
]

any_nest :
    (host a : Text) (scopes : List Text)
    → covers host a ≡ true
    → any (covers host) scopes ≡ true
    → any (scopes_nest a) scopes ≡ true
any_nest host a [] h k = absurd (cc k)
any_nest host a (s ∷ scopes) h k = elim (Bool-cases (covers host s)) [
  | inl t ↦ rw (covers-nest host a s h t) refl
  | inr t ↦ elim (Bool-cases (scopes_nest a s)) [
    | inl n ↦ rw n refl
    | inr n ↦ rw n (any_nest host a scopes h (rw t at k))
  ]
]

module _ (domain_str : Text → Option Text) where
  -- What one group of an accepted configuration is.
  pub record IsSound (g : AccountGroup) : Type 0 where
    pub identified : is_nil g.id ≡ false
    pub named : is_blank g.display_name ≡ false
    pub scoped : is_valid_scope domain_str (normalize_scope g.scope) ≡ true

  record Step (ids : List Uuid) (scopes : List Text) (g : AccountGroup) (gs : List AccountGroup)
      : Type 0 where
    sound : IsSound g
    fresh : any (λ id. id == g.id) ids ≡ false
    apart : any (scopes_nest (normalize_scope g.scope)) scopes ≡ false
    rest :
        validate_groups domain_str (g.id ∷ ids) (scopes ++ normalize_scope g.scope ∷ []) gs ≡ ok tt

  step :
      (ids : List Uuid) (scopes : List Text) (g : AccountGroup) (gs : List AccountGroup)
      → validate_groups domain_str ids scopes (g ∷ gs) ≡ ok tt
      → Step ids scopes g gs
  unfolding validate_groups
  step ids scopes g gs h =
      let (_, i, h) = >>=-eq-ok (refuse_if (is_nil g.id || any (λ id. id == g.id) ids) _) _ h in
      let (_, b, h) = >>=-eq-ok (refuse_if (is_blank g.display_name) _) _ h in
      let (_, n, h) =
        >>=-eq-ok (refuse_if (any (scopes_nest (normalize_scope g.scope)) scopes) _) _ h in
      let (_, v, h) =
        >>=-eq-ok (refuse_if (not (is_valid_scope domain_str (normalize_scope g.scope))) _) _ h in
      let i' = refused_not _ _ _ i in
      record {
        sound = record {
          identified = left_false _ _ i';
          named = refused_not _ _ _ b;
          scoped = not-false _ (refused_not _ _ _ v);
        };
        fresh = right_false _ _ i';
        apart = refused_not _ _ _ n;
        rest = h;
      }
    where
      left_false : (p q : Bool) → (p || q) ≡ false → p ≡ false
      left_false true q h = cc
      left_false false q h = refl

      right_false : (p q : Bool) → (p || q) ≡ false → q ≡ false
      right_false true q h = absurd (cc h)
      right_false false q h = h

  All-IsSound :
      (ids : List Uuid) (scopes : List Text) (gs : List AccountGroup)
      → validate_groups domain_str ids scopes gs ≡ ok tt
      → All IsSound gs
  All-IsSound ids scopes [] h = tt
  All-IsSound ids scopes (g ∷ gs) h =
      let s = step ids scopes g gs h in
      (s.sound, All-IsSound (g.id ∷ ids) (scopes ++ normalize_scope g.scope ∷ []) gs s.rest)

  -- A host of an earlier scope has no owner among the later groups.
  no_owner :
      (host : Text) (ids : List Uuid) (scopes : List Text) (gs : List AccountGroup)
      → validate_groups domain_str ids scopes gs ≡ ok tt
      → any (covers host) scopes ≡ true
      → owners host gs ≡ []
  no_owner host ids scopes [] h k = refl
  no_owner host ids scopes (g ∷ gs) h k =
      let s = step ids scopes g gs h in
      elim (Bool-cases (covers host (normalize_scope g.scope))) [
        | inl t ↦ absurd (clash (any_nest host _ scopes t k) s.apart)
        | inr t ↦ rw t (
            no_owner host (g.id ∷ ids) (scopes ++ normalize_scope g.scope ∷ []) gs s.rest
              (any-append (covers host) scopes _ k))
      ]
    where
      clash : {b : Bool} → b ≡ true → b ≡ false → ⊥
      clash h k = cc

  one_owner :
      (host : Text) (ids : List Uuid) (scopes : List Text) (gs : List AccountGroup)
      → validate_groups domain_str ids scopes gs ≡ ok tt
      → length (owners host gs) ≤ 1
  one_owner host ids scopes [] h = omega arith
  one_owner host ids scopes (g ∷ gs) h =
      let s = step ids scopes g gs h in
      elim (Bool-cases (covers host (normalize_scope g.scope))) [
        | inl t ↦
            rw
              (
                t,
                no_owner host (g.id ∷ ids) (scopes ++ normalize_scope g.scope ∷ []) gs s.rest
                    (any_last (covers host) scopes (normalize_scope g.scope) t),
              )
              (omega arith)
        | inr t ↦
            rw t (one_owner host (g.id ∷ ids) (scopes ++ normalize_scope g.scope ∷ []) gs s.rest)
      ]

  id_seen :
      (id : Uuid) (ids : List Uuid) (scopes : List Text) (gs : List AccountGroup)
      → validate_groups domain_str ids scopes gs ≡ ok tt
      → any (λ i. i == id) ids ≡ true
      → with_id id gs ≡ []
  id_seen id ids scopes [] h k = refl
  id_seen id ids scopes (g ∷ gs) h k =
      let s = step ids scopes g gs h in
      elim (Bool-cases (g.id == id)) [
        | inl t ↦ let e : g.id ≡ id = ground arith in absurd (clash k (rw e at s.fresh))
        | inr t ↦
            rw t
              (id_seen id (g.id ∷ ids) (scopes ++ normalize_scope g.scope ∷ []) gs s.rest (rw t k))
      ]
    where
      clash : {b : Bool} → b ≡ true → b ≡ false → ⊥
      clash h k = cc

  one_id :
      (id : Uuid) (ids : List Uuid) (scopes : List Text) (gs : List AccountGroup)
      → validate_groups domain_str ids scopes gs ≡ ok tt
      → length (with_id id gs) ≤ 1
  one_id id ids scopes [] h = omega arith
  one_id id ids scopes (g ∷ gs) h =
      let s = step ids scopes g gs h in
      elim (Bool-cases (g.id == id)) [
        | inl t ↦
            rw
              (
                t,
                id_seen id (g.id ∷ ids) (scopes ++ normalize_scope g.scope ∷ []) gs s.rest
                    (rw t refl),
              )
              (omega arith)
        | inr t ↦ rw t (one_id id (g.id ∷ ids) (scopes ++ normalize_scope g.scope ∷ []) gs s.rest)
      ]

  -- An accepted configuration has version 3 and at most 32 groups, each with an id that is not nil, a
  -- name that is not blank and a valid scope; no two groups share an id, and every host belongs to at
  -- most one group, so that the owner of a cookie is never ambiguous.
  pub config_validate-Owned :
      (c : AccountGroupsConfig) (host : Text) (id : Uuid)
      → config_validate domain_str c ≡ ok tt
      → (c.version ≡ 3)
        × (c.compatibility_version ≡ 3)
        × (length c.groups ≤ max_groups)
        × All IsSound c.groups
        × (length (with_id id c.groups) ≤ 1)
        × (length (owners host c.groups) ≤ 1)
  unfolding config_validate
  config_validate-Owned c host id h =
      let (_, v, h) =
        >>=-eq-ok (refuse_if (not (c.version == 3) || not (c.compatibility_version == 3)) _) _ h in
      let (_, n, h) = >>=-eq-ok (refuse_if (ltb max_groups (length c.groups)) _) _ h in
      let v' = refused_not _ _ _ v in
      let n' = refused_not _ _ _ n in
      (
        ground arith,
        ground arith,
        ground arith,
        All-IsSound [] [] c.groups h,
        one_id id [] [] c.groups h,
        one_owner host [] [] c.groups h,
      )
