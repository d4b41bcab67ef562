-- ===== src/Config.antt =====
-- native-host/src/config.rs: the account groups and their validation. A text is the list of its
-- characters, by their code points.
pub mod Owned
use fursoy_vault.Prelude.{
  Uuid, is_nil, ℕ, ◌+◌, ◌-◌, ◌*◌, zero, suc, Bool, true, false, not, ◌&&◌, ◌||◌, Option, none, some,
  List, [], ◌∷◌, ◌++◌, ◌==◌, leb, ltb, any, length, eqb, if◌then◌else◌, Bytes, bytes_eq, codes,
}
use fursoy_vault.Error.{
  FcpResult, ok, err, ◌>>=◌, ◌>>◌, refuse_if, format, config_version, group_count, group_id_invalid,
  empty_required_field, scopes_overlap, scope_invalid,
}

abbrev pub Text : Type 0
Text = List ℕ

abbrev pub max_groups : ℕ
max_groups = 32

abbrev pub max_scope_len : ℕ
max_scope_len = 253

pub data PolicyLevel : Type 0 where
  critical balanced convenient monitor : PolicyLevel

pub data StorePolicy : Type 0 where
  normal_profile : StorePolicy

pub record AccountGroup : Type 0 where
  pub id : Uuid
  pub display_name : Text
  pub scope : Text
  pub policy_level : PolicyLevel
  pub store_policy : StorePolicy

pub record AccountGroupsConfig : Type 0 where
  pub version : ℕ  -- u16
  pub compatibility_version : ℕ  -- u16
  pub groups : List AccountGroup

pub record PolicyParameters : Type 0 where
  pub lease_duration_ms : ℕ  -- u64
  pub idle_threshold_seconds : ℕ  -- u64
  pub last_tab_grace_ms : ℕ  -- u64
  pub monitoring_only : Bool

abbrev lease_backstop_ms : ℕ
lease_backstop_ms = 12 * 60 * 60000

unfoldable pub parameters : PolicyLevel → PolicyParameters
parameters critical = record {
  lease_duration_ms = lease_backstop_ms;
  idle_threshold_seconds = 5 * 60;
  last_tab_grace_ms = 0;
  monitoring_only = false;
}
parameters balanced = record {
  lease_duration_ms = lease_backstop_ms;
  idle_threshold_seconds = 15 * 60;
  last_tab_grace_ms = 2 * 60000;
  monitoring_only = false;
}
parameters convenient = record {
  lease_duration_ms = lease_backstop_ms;
  idle_threshold_seconds = 60 * 60;
  last_tab_grace_ms = 15 * 60000;
  monitoring_only = false;
}
parameters monitor = record {
  lease_duration_ms = 0;
  idle_threshold_seconds = 0;
  last_tab_grace_ms = 0;
  monitoring_only = true;
}

-- `char::is_whitespace`
abbrev is_whitespace : ℕ → Bool
is_whitespace c =
    (leb 9 c && leb c 13)
    || c == 32
    || c == 0x85
    || c == 0xa0
    || c == 0x1680
    || (leb 0x2000 c && leb c 0x200a)
    || c == 0x2028
    || c == 0x2029
    || c == 0x202f
    || c == 0x205f
    || c == 0x3000

-- `text.trim().is_empty()`
unfoldable pub is_blank : Text → Bool
is_blank [] = true
is_blank (c ∷ cs) = is_whitespace c && is_blank cs

abbrev lower : ℕ → ℕ
lower c = if leb b'A' c && leb c b'Z' then c + 32 else c

abbrev lower_all : Text → Text
lower_all [] = []
lower_all (c ∷ cs) = lower c ∷ lower_all cs

abbrev trim_dots : Text → Text
trim_dots [] = []
trim_dots (c ∷ cs) = if c == b'.' then trim_dots cs else c ∷ cs

unfoldable pub normalize_scope : Text → Text
normalize_scope scope = lower_all (trim_dots scope)

-- How many bytes a character takes in UTF-8.
abbrev utf8_width : ℕ → ℕ
utf8_width c = if ltb c 0x80 then 1 else if ltb c 0x800 then 2 else if ltb c 0x10000 then 3 else 4

abbrev utf8_length : Text → ℕ
utf8_length [] = 0
utf8_length (c ∷ cs) = utf8_width c + utf8_length cs

unfoldable pub ends_with : Text → Text → Bool
ends_with text [] = true
ends_with [] (c ∷ cs) = false
ends_with (t ∷ ts) (c ∷ cs) = if bytes_eq (t ∷ ts) (c ∷ cs) then true else ends_with ts (c ∷ cs)

abbrev has_double_dot : Text → Bool
has_double_dot [] = false
has_double_dot (c ∷ []) = false
has_double_dot (c ∷ d ∷ cs) = (c == b'.' && d == b'.') || has_double_dot (d ∷ cs)

abbrev is_scope_char : ℕ → Bool
is_scope_char c =
    (leb b'0' c && leb c b'9')
    || (leb b'A' c && leb c b'Z')
    || (leb b'a' c && leb c b'z')
    || c == b'.'
    || c == b'-'

abbrev all_scope_chars : Text → Bool
all_scope_chars [] = true
all_scope_chars (c ∷ cs) = is_scope_char c && all_scope_chars cs

abbrev is_digit : ℕ → Bool
is_digit c = leb b'0' c && leb c b'9'

-- An octet in decimal, without a leading zero.
abbrev is_octet : Text → Bool
is_octet [] = false
is_octet (a ∷ []) = is_digit a
is_octet (a ∷ b ∷ []) = is_digit a && not (a == b'0') && is_digit b
is_octet (a ∷ b ∷ c ∷ []) =
    is_digit a
    && not (a == b'0')
    && is_digit b
    && is_digit c
    && leb ((a - b'0') * 100 + (b - b'0') * 10 + (c - b'0')) 255
is_octet (a ∷ b ∷ c ∷ e ∷ cs) = false

abbrev push_front : ℕ → List Text → List Text
push_front c [] = (c ∷ []) ∷ []
push_front c (p ∷ ps) = (c ∷ p) ∷ ps

abbrev dot_parts : Text → List Text
dot_parts [] = [] ∷ []
dot_parts (c ∷ cs) = if c == b'.' then [] ∷ dot_parts cs else push_front c (dot_parts cs)

abbrev four_octets : List Text → Bool
four_octets (a ∷ b ∷ c ∷ e ∷ []) = is_octet a && is_octet b && is_octet c && is_octet e
four_octets _ = false

-- `scope.parse::<Ipv4Addr>().is_ok()`
unfoldable pub is_ipv4 : Text → Bool
is_ipv4 scope = four_octets (dot_parts scope)

abbrev is_own_domain : Option Text → Text → Bool
is_own_domain none scope = false
is_own_domain (some domain) scope = bytes_eq domain scope

-- One scope lies in the other.
unfoldable pub scopes_nest : Text → Text → Bool
scopes_nest scope existing =
    bytes_eq scope existing
    || ends_with scope (b'.' ∷ existing)
    || ends_with existing (b'.' ∷ scope)

-- `domain_str` is the registrable domain of a text, by the psl crate.
module _ (domain_str : Text → Option Text) where
  unfoldable pub is_valid_scope : Text → Bool
  is_valid_scope scope =
      if bytes_eq scope (codes "localhost")
      then true
      else if length scope == 0
          || ltb max_scope_len (utf8_length scope)
          || ends_with scope (codes ".")
          || has_double_dot scope
          || not (all_scope_chars scope)
      then false
      else if is_ipv4 scope
      then true
      else is_own_domain (domain_str scope) scope

  -- The loop of `validate`, with the ids and the scopes that it has seen.
  unfoldable pub validate_groups : List Uuid → List Text → List AccountGroup → FcpResult (Unit {0})
  validate_groups ids scopes [] = ok tt
  validate_groups ids scopes (g ∷ gs) = do
    refuse_if (is_nil g.id || any (λ id. id == g.id) ids) (format group_id_invalid)
    refuse_if (is_blank g.display_name) (format empty_required_field)
    refuse_if (any (scopes_nest (normalize_scope g.scope)) scopes) (format scopes_overlap)
    refuse_if (not (is_valid_scope (normalize_scope g.scope))) (format scope_invalid)
    validate_groups (g.id ∷ ids) (scopes ++ normalize_scope g.scope ∷ []) gs

  unfoldable pub config_validate : AccountGroupsConfig → FcpResult (Unit {0})
  config_validate c = do
    refuse_if (not (c.version == 3) || not (c.compatibility_version == 3)) (format config_version)
    refuse_if (ltb max_groups (length c.groups)) (format group_count)
    validate_groups [] [] c.groups
