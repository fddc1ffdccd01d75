-- ===== src/Examples/FlagRuns.antt =====
-- A catalogue of two flags and the overrides of a cohort.
use device_management.Prelude.Dict
use device_management.Prelude.Dict.{Dict}
use device_management.Flags.{Flag, Override, resolve_feature_flags}
use device_management.Flags.Applicable.{Applicable, resolve_feature_flags-false_wins}
use device_management.Prelude.{
  ◌≡◌, ◌↔◌, true, false, none, some, List, [], ◌∷◌, nat_eq, string_eq, pair_eq, list_eq,
}

abbrev beta : Flag
beta = record {
  id = 1;
  name = "beta";
  plugin_slug = "";
  default_value = some true;
  deprecated = false;
  min_plugin_version = none;
}

abbrev overrides : List Override
overrides =
    record { feature_id = 1; cohort_id = 2; value = true; min_plugin_version = none }
    ∷ record { feature_id = 1; cohort_id = 3; value = false; min_plugin_version = none }
    ∷ []

resolve_feature_flags-false_wins_example :
    let App = Applicable (2 ∷ 3 ∷ []) "1.0.0" "matisse" (beta ∷ []) overrides "beta" in
    let served =
      Dict.get
        (resolve_feature_flags (2 ∷ 3 ∷ []) "1.0.0" "matisse" (beta ∷ []) overrides)
        "beta" in
    ((served ≡ some false) ↔ App false)
    × ((served ≡ some true) ↔ (App true × ¬ (App false)))
    × ((served ≡ none) ↔ (¬ (App true) × ¬ (App false)))
resolve_feature_flags-false_wins_example =
    resolve_feature_flags-false_wins (2 ∷ 3 ∷ []) "1.0.0" "matisse" (beta ∷ []) overrides "beta"
