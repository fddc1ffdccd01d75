-- ===== src/Flags/Catalog.antt =====
-- The catalogue of feature flags, app/admin/services/flags.py: its statements on the tables
-- `feature_flags` and `feature_flag_overrides`, and the reconciliation of the catalogue with the
-- template that a plugin's package brings.
pub mod Names
pub mod States
pub mod Reconcile
use device_management.Prelude.Dict
use device_management.Prelude.Dict.{Dict}
use device_management.Json.{Json}
use device_management.Flags.Template.{template_names}
use device_management.Flags.{Flag, Override}
use device_management.Prelude.{
  ℕ, ◌+◌, String, refl, Bool, true, false, not, ◌&&◌, Option, none, some, List, [], ◌∷◌, ◌++◌, map,
  arith, if◌then◌else◌, or_else, is_some, any, select, ◌==◌, nat_eq, string_eq, pair_eq, list_eq,
  codes, str_ltb,
}

-- `next_id` is the sequence of `feature_flags.id`.
pub record Catalog : Type 0 where
  pub flags : List Flag
  pub overrides : List Override
  pub next_id : ℕ

-- `flag_state`
pub data FlagState : Type 0 where
  transparent forced_on forced_off : FlagState

unfoldable pub flag_state : Option Bool → FlagState
flag_state none = transparent
flag_state (some true) = forced_on
flag_state (some false) = forced_off

abbrev pub is_flag : String → String → Flag → Bool
is_flag slug name f = f.plugin_slug == slug && f.name == name

abbrev pub is_id : ℕ → Flag → Bool
is_id id f = f.id == id

-- `min_plugin_version or None`
abbrev pub text_or_none : Option String → Option String
text_or_none none = none
text_or_none (some s) = if s == "" then none else some s

-- `none` is the violation of the unique index on slug and name
unfoldable pub create_flag :
    String → Option Bool → String → Option String → Catalog → Option (Catalog × ℕ)
create_flag name default_value slug min_plugin_version c =
    if any (is_flag slug name) c.flags
    then none
    else some (
      record c {
        flags =
            c.flags
            ++ record {
              id = c.next_id;
              name = name;
              plugin_slug = slug;
              default_value = default_value;
              deprecated = false;
              min_plugin_version = text_or_none min_plugin_version;
            }
              ∷ [];
        next_id = c.next_id + 1;
      },
      c.next_id,
    )

-- `UPDATE … SET default_value = %s WHERE id = %s`, and whether there was such a flag
unfoldable pub update_flag_default : ℕ → Option Bool → Catalog → Catalog × Bool
update_flag_default id value c = (
  record c {
    flags =
        map (λ (f : Flag). if is_id id f then record f { default_value = value } else f) c.flags;
  },
  any (is_id id) c.flags,
)

abbrev pub is_override : ℕ → ℕ → Override → Bool
is_override feature_id cohort_id o = o.feature_id == feature_id && o.cohort_id == cohort_id

-- `INSERT … ON CONFLICT (feature_id, cohort_id) DO UPDATE`
unfoldable pub put_override : Override → List Override → List Override
put_override o [] = o ∷ []
put_override o (p ∷ ps) =
    if is_override o.feature_id o.cohort_id p then o ∷ ps else p ∷ put_override o ps

unfoldable pub create_override : ℕ → ℕ → Bool → Option String → Catalog → Catalog
unfolding put_override
create_override feature_id cohort_id value min_plugin_version c = record c {
  overrides =
      put_override
        (record {
          feature_id = feature_id;
          cohort_id = cohort_id;
          value = value;
          min_plugin_version = min_plugin_version;
        })
        c.overrides;
}

unfoldable pub delete_override : ℕ → ℕ → Catalog → Catalog × Bool
delete_override feature_id cohort_id c = (
  record c {
    overrides = select (λ (o : Override). not (is_override feature_id cohort_id o)) c.overrides;
  },
  any (is_override feature_id cohort_id) c.overrides,
)

unfoldable pub delete_flag : ℕ → Catalog → Catalog × Bool
delete_flag id c = (
  record c {
    overrides = select (λ (o : Override). not (o.feature_id == id)) c.overrides;
    flags = select (λ (f : Flag). not (is_id id f)) c.flags;
  },
  any (is_id id) c.flags,
)

abbrev pub insert_name : String → List String → List String
insert_name n [] = n ∷ []
insert_name n (m ∷ ms) =
    let rest = insert_name n ms in if str_ltb (codes m) (codes n) then m ∷ rest else n ∷ m ∷ ms

-- `sorted(…)`
unfoldable pub sorted : List String → List String
sorted [] = []
sorted (n ∷ ns) = insert_name n (sorted ns)

abbrev pub keys : Dict String Bool → List String
keys names = map (λ (p : String × Bool). p.0) names

-- `{row[0]: bool(row[1]) for row in …}` of the flags of a plugin
unfoldable pub existing : String → List Flag → Dict String Bool
existing slug [] = []
existing slug (f ∷ fs) =
    let rest = existing slug fs in
    if f.plugin_slug == slug then (f.name, f.deprecated) ∷ rest else rest

-- `INSERT … ON CONFLICT (plugin_slug, name) DO UPDATE SET deprecated = false`
unfoldable pub register : String → String → ℕ → List Flag → List Flag
register slug name id [] =
    record {
      id = id;
      name = name;
      plugin_slug = slug;
      default_value = none;
      deprecated = false;
      min_plugin_version = none;
    }
    ∷ []
register slug name id (f ∷ fs) =
    if is_flag slug name f
    then record f { deprecated = false } ∷ fs
    else f ∷ register slug name id fs

-- the loop over the sorted names; the sequence advances on a conflict too
unfoldable pub register_all : String → List String → Catalog → Catalog
unfolding register
register_all slug [] c = c
register_all slug (n ∷ ns) c =
    register_all slug ns
      (record c { flags = register slug n c.next_id c.flags; next_id = c.next_id + 1 })

abbrev pub in_names : Dict String Bool → String → Bool
in_names names n = is_some (Dict.get names n)

-- the names of the catalogue that are not in the template, of those deprecated or of the others
abbrev pub absent : Bool → Dict String Bool → Dict String Bool → List String
absent deprecated names rows =
    map (λ (p : String × Bool). p.0)
      (select
        (λ (p : String × Bool). not (in_names names p.0) && (if deprecated then p.1 else not p.1))
        rows)

unfoldable pub deprecate : String → List String → List Flag → List Flag
deprecate slug names fs =
    map
      (λ (f : Flag).
        if f.plugin_slug == slug && any (λ (n : String). n == f.name) names
        then record f { deprecated = true }
        else f)
      fs

pub record Diff : Type 0 where
  pub added : List String
  pub kept : List String
  pub reactivated : List String
  pub orphaned : List String
  pub already_deprecated : List String

-- a name of the template against the catalogue as it was
abbrev pub is_new : Dict String Bool → String → Bool
is_new rows n = not (is_some (Dict.get rows n))

abbrev pub was_deprecated : Dict String Bool → String → Bool
was_deprecated rows n = or_else (Dict.get rows n) false

unfoldable pub reconcile_catalog_from_template : String → Json → Catalog → Catalog × Diff
unfolding template_names sorted existing register_all deprecate
reconcile_catalog_from_template slug template c =
    let names = template_names template in
    let rows = existing slug c.flags in
    let ns = sorted (keys names) in
    let orphaned = sorted (absent false names rows) in
    let registered = register_all slug ns c in
    (
      record registered { flags = deprecate slug orphaned registered.flags },
      record {
        added = select (is_new rows) ns;
        reactivated = select (was_deprecated rows) ns;
        kept = select (λ (n : String). not (is_new rows n) && not (was_deprecated rows n)) ns;
        orphaned = orphaned;
        already_deprecated = sorted (absent true names rows);
      },
    )
