-- ===== src/Campaigns/Enrichment/Layers.antt =====
-- The features of an answer where some statements fail.
use device_management.Prelude.Dict
use device_management.Prelude.Dict.{Dict, Distinct}
use device_management.Flags.{resolve_feature_flags, resolve_forced_flags, override_rows, update}
use device_management.Flags.Precedence.{
  first_of, update-get, fold_rows-Distinct, fold_forced-Distinct,
}
use device_management.Campaigns.Enrichment.{Tables, Fails, Asker, caught, enrich}
use device_management.Prelude.{
  ℕ, String, ◌≡◌, refl, ◌∙◌, inl, inr, Bool, true, false, ◌||◌, Option, none, [], if◌then◌else◌,
  Bool-cases, nat_eq, string_eq, pair_eq, list_eq,
}

-- what a layer says of a flag, where its statement works
abbrev pub layer : Bool → Dict String Bool → String → Option Bool
layer fails values name = if fails then none else Dict.get values name

caught-Distinct :
    (fails : Bool) (values : Dict String Bool) → Distinct values → Distinct (caught fails values)
caught-Distinct true values h = tt
caught-Distinct false values h = h

caught-get :
    (fails : Bool) (values : Dict String Bool) (name : String)
    → Dict.get (caught fails values) name ≡ layer fails values name
unfolding Dict.get
caught-get true values name = refl
caught-get false values name = refl

-- An answer of `/config` has, of each flag, what the cohorts' overrides say, or else what the
-- catalogue forces, or else what the template says; a statement that fails takes away its own layer
-- and no other, and without a connection the template is left.
pub enrich-features :
    (device_hash : String → ℕ) (now : ℕ) (fails : Fails) (a : Asker)
    (template_toggles : Dict String Bool) (t : Tables) (name : String)
    → Dict.get (enrich device_hash now fails a template_toggles t).features name
      ≡ first_of
          (layer
            (fails.connection || fails.overrides)
            (resolve_feature_flags a.device_cohort_ids a.plugin_version a.device_name t.flags
              t.overrides)
            name)
          (first_of
            (layer
              (fails.connection || fails.forced)
              (resolve_forced_flags a.plugin_version a.device_name t.flags)
              name)
            (Dict.get template_toggles name))
unfolding enrich resolve_feature_flags resolve_forced_flags
enrich-features f now fails a toggles t name = elim (Bool-cases fails.connection) [
  | inl e ↦ rw e refl
  | inr e ↦ rw e (layered)
]
  where
    forced_values : Dict String Bool
    forced_values = resolve_forced_flags a.plugin_version a.device_name t.flags

    cohort_values : Dict String Bool
    cohort_values =
        resolve_feature_flags a.device_cohort_ids a.plugin_version a.device_name t.flags t.overrides

    forced_distinct : Distinct forced_values
    forced_distinct = fold_forced-Distinct a.plugin_version a.device_name [] t.flags tt

    cohort_distinct : Distinct cohort_values
    cohort_distinct =
        fold_rows-Distinct a.plugin_version []
          (override_rows a.device_cohort_ids a.device_name t.flags t.overrides) tt

    layered :
        Dict.get
          (update
            (update toggles (caught fails.forced forced_values))
            (caught fails.overrides cohort_values))
          name
        ≡ first_of
            (layer fails.overrides cohort_values name)
            (first_of (layer fails.forced forced_values name) (Dict.get toggles name))
    layered =
        update-get (update toggles (caught fails.forced forced_values))
          (caught fails.overrides cohort_values) name
          (caught-Distinct fails.overrides cohort_values cohort_distinct)
        ∙ rw
            (
              update-get toggles (caught fails.forced forced_values) name
                  (caught-Distinct fails.forced forced_values forced_distinct),
              caught-get fails.overrides cohort_values name,
              caught-get fails.forced forced_values name,
            )
            refl
