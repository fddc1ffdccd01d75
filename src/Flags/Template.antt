-- ===== src/Flags/Template.antt =====
-- The flags that the template of a package names, with the values it gives them: the first loops of
-- `reconcile_catalog_from_template` of app/admin/services/flags.py.
use device_management.Prelude.Dict
use device_management.Prelude.Dict.{Dict}
use device_management.Json.{
  Json, null, bool, num, str, arr, obj, nil, cons, Fields, end, field, get_field,
}
use device_management.Prelude.{
  zero, String, Bool, true, false, not, Option, none, some, [], if◌then◌else◌, is_some, ◌==◌,
  nat_eq, string_eq, pair_eq, pos, list_eq,
}

-- `bool(value)`
abbrev pub truth : Json → Bool
truth null = false
truth (bool b) = b
truth (num (pos zero)) = false
truth (num z) = true
truth (str s) = not (s == "")
truth (arr nil) = false
truth (arr (cons x xs)) = true
truth (obj end) = false
truth (obj (field k v fs)) = true

abbrev pub fields_of : Option Json → Fields
fields_of (some (obj fs)) = fs
fields_of _ = end

-- the feature toggles of a section of the template
unfoldable pub toggles_of : Json → Fields
unfolding get_field
toggles_of (obj fs) = fields_of (get_field fs "featureToggles")
toggles_of _ = end

abbrev pub setdefault : Dict String Bool → String → Bool → Dict String Bool
setdefault names key value =
    if is_some (Dict.get names key) then names else Dict.put names key value

unfoldable pub add_defaults : Fields → Dict String Bool → Dict String Bool
add_defaults end names = names
add_defaults (field key value fs) names = add_defaults fs (setdefault names key (truth value))

unfoldable pub add_sections : Fields → Dict String Bool → Dict String Bool
unfolding add_defaults toggles_of
add_sections end names = names
add_sections (field key section fs) names =
    add_sections fs (add_defaults (toggles_of section) names)

unfoldable pub overwrite : Fields → Dict String Bool → Dict String Bool
overwrite end names = names
overwrite (field key value fs) names = overwrite fs (Dict.put names key (truth value))

abbrev pub toggles_or_none : Option Json → Fields
toggles_or_none none = end
toggles_or_none (some section) = toggles_of section

abbrev pub default_section : Fields → Fields
default_section fs = toggles_or_none (get_field fs "default")

-- the names of the template's flags, over its sections, with the values of the default section
unfoldable pub template_names : Json → Dict String Bool
unfolding add_sections overwrite
template_names (obj fs) = overwrite (default_section fs) (add_sections fs [])
template_names _ = []
