-- ===== src/Flags.antt =====
-- Feature flags: `_resolve_feature_flags`, `_resolve_forced_flags` and the merge of `/config` in
-- app/main.py, over the tables `feature_flags` and `feature_flag_overrides`.
pub mod Resolution
pub mod Applicable
pub mod Precedence
pub mod Template
pub mod Catalog
use device_management.Prelude.Dict
use device_management.Prelude.Dict.{Dict}
use device_management.Version.{version_lt}
use device_management.Prelude.{
  ℕ, ◌+◌, String, refl, Bool, true, false, not, ◌&&◌, ◌||◌, Option, none, some, List, [], ◌∷◌, ◌++◌,
  arith, if◌then◌else◌, or_else, any, ◌==◌, nat_eq, string_eq, pair_eq,
}

-- A flag of the catalogue: `default_value` is NULL (transparent), true or false (forced).
pub record Flag : Type 0 where
  pub id : ℕ
  pub name : String
  pub plugin_slug : String
  pub default_value : Option Bool
  pub deprecated : Bool
  pub min_plugin_version : Option String

pub record Override : Type 0 where
  pub feature_id : ℕ
  pub cohort_id : ℕ
  pub value : Bool
  pub min_plugin_version : Option String

-- A row of the query: name, value, and the gates of the override and of the flag.
pub record Row : Type 0 where
  pub name : String
  pub value : Bool
  pub override_min : Option String
  pub flag_min : Option String

-- `plugin_slug IN ('', slug)`
abbrev pub in_scope : String → Flag → Bool
in_scope slug f = not f.deprecated && (f.plugin_slug == "" || f.plugin_slug == slug)

-- the flags that an override is joined to
unfoldable pub join_flags : String → Override → List Flag → List Row
join_flags slug o [] = []
join_flags slug o (f ∷ fs) =
    let rest = join_flags slug o fs in
    if f.id == o.feature_id && in_scope slug f
    then record {
      name = f.name;
      value = o.value;
      override_min = o.min_plugin_version;
      flag_min = f.min_plugin_version;
    }
      ∷ rest
    else rest

unfoldable pub override_rows : List ℕ → String → List Flag → List Override → List Row
unfolding join_flags
override_rows cohorts slug flags [] = []
override_rows cohorts slug flags (o ∷ os) =
    let rest = override_rows cohorts slug flags os in
    if any (λ (c : ℕ). o.cohort_id == c) cohorts then join_flags slug o flags ++ rest else rest

-- `_gated`: whether a minimum version blocks; an unknown version is blocked by any
unfoldable pub gated : String → Option String → Bool
gated plugin_version none = false
gated plugin_version (some low) =
    if low == ""
    then false
    else if plugin_version == ""
    then true
    else version_lt plugin_version low

unfoldable pub applies : String → Row → Bool
unfolding gated
applies plugin_version r =
    not (gated plugin_version r.flag_min || gated plugin_version r.override_min)

-- `flags[name] = flags.get(name, True) and value`
abbrev pub conjoin : Dict String Bool → Row → Dict String Bool
conjoin flags r = Dict.put flags r.name (or_else (Dict.get flags r.name) true && r.value)

unfoldable pub fold_rows : String → Dict String Bool → List Row → Dict String Bool
unfolding applies
fold_rows plugin_version flags [] = flags
fold_rows plugin_version flags (r ∷ rs) =
    fold_rows plugin_version (if applies plugin_version r then conjoin flags r else flags) rs

unfoldable pub resolve_feature_flags :
    List ℕ → String → String → List Flag → List Override → Dict String Bool
unfolding fold_rows override_rows
resolve_feature_flags device_cohort_ids plugin_version plugin_slug flags overrides =
    fold_rows plugin_version [] (override_rows device_cohort_ids plugin_slug flags overrides)

-- a flag with a value of its own that is in scope and not gated
unfoldable pub forced : String → String → Flag → Option Bool
unfolding gated
forced plugin_version slug f =
    if in_scope slug f && not (gated plugin_version f.min_plugin_version)
    then f.default_value
    else none

-- `out[name] = forced_val`: the last row of a name wins
unfoldable pub fold_forced : String → String → Dict String Bool → List Flag → Dict String Bool
unfolding forced
fold_forced plugin_version slug out [] = out
fold_forced plugin_version slug out (f ∷ fs) =
    fold_forced plugin_version slug
      (elim (forced plugin_version slug f) [ none ↦ out | some v ↦ Dict.put out f.name v ]) fs

unfoldable pub resolve_forced_flags : String → String → List Flag → Dict String Bool
unfolding fold_forced
resolve_forced_flags plugin_version plugin_slug flags =
    fold_forced plugin_version plugin_slug [] flags

-- `d.update(e)`
unfoldable pub update : Dict String Bool → Dict String Bool → Dict String Bool
update d [] = d
update d ((k, v) ∷ e) = update (Dict.put d k v) e

-- `features` of the response: the template, then what the catalogue forces, then the cohorts
unfoldable pub features_resolved :
    Dict String Bool → List ℕ → String → String → List Flag → List Override → Dict String Bool
unfolding update resolve_forced_flags resolve_feature_flags
features_resolved template_toggles device_cohort_ids plugin_version plugin_slug flags overrides =
    update (update template_toggles (resolve_forced_flags plugin_version plugin_slug flags))
      (resolve_feature_flags device_cohort_ids plugin_version plugin_slug flags overrides)
