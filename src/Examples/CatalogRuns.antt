-- ===== src/Examples/CatalogRuns.antt =====
-- A package whose template drops a flag that an administrator has forced.
use device_management.Json.{Json, bool, obj, end, field}
use device_management.Flags.Template.{toggles_of}
use device_management.Flags.Catalog.{Catalog, reconcile_catalog_from_template}
use device_management.Flags.Catalog.States.{state}
use device_management.Flags.Catalog.Reconcile.{reconcile_catalog_from_template-state}
use device_management.Prelude.{
  ◌≡◌, true, false, none, some, [], ◌∷◌, nat_eq, string_eq, pair_eq, list_eq,
}

abbrev template : Json
template =
    obj (field "default" (obj (field "featureToggles" (obj (field "new" (bool true) end)) end)) end)

abbrev catalog : Catalog
catalog = record {
  flags =
      record {
        id = 1;
        name = "old";
        plugin_slug = "mirai";
        default_value = some true;
        deprecated = false;
        min_plugin_version = none;
      }
      ∷ [];
  overrides = [];
  next_id = 2;
}

reconcile_catalog_from_template-state_example :
    state "mirai" "old" (reconcile_catalog_from_template "mirai" template catalog).0.flags
    ≡ some (some true, (none, true))
unfolding toggles_of
reconcile_catalog_from_template-state_example =
    reconcile_catalog_from_template-state "mirai" template catalog "old"
