-- ===== src/Config/Devices.antt =====
-- Which plugin a device asks for and whether it may: `_resolve_device` and `_check_plugin_access` of
-- app/main.py.
use device_management.Prelude.Dict
use device_management.Prelude.Dict.{Dict}
use device_management.Prelude.Text.{nonempty, starts_with}
use device_management.Prelude.{
  ℕ, Bool, true, false, ◌&&◌, Option, none, some, List, [], ◌∷◌, if◌then◌else◌, or_else, ◌==◌,
  nat_eq, string_eq, pair_eq, list_eq, Str, codes, lower, strip, elem,
}

pub record PluginRow : Type 0 where
  pub id : ℕ
  pub slug : Str
  pub device_type : Str
  pub active : Bool

-- the tables `plugins` and `plugin_aliases`
pub record Plugins : Type 0 where
  pub rows : List PluginRow
  pub aliases : Dict Str ℕ

pub record Device : Type 0 where
  pub device_name : Str
  pub device_type : Str
  pub plugin_id : Option ℕ

abbrev pub find_plugin : (PluginRow → Bool) → List PluginRow → Option PluginRow
find_plugin p [] = none
find_plugin p (r ∷ rs) = if p r && r.active then some r else find_plugin p rs

abbrev pub device_of : PluginRow → Device
device_of r = record { device_name = r.slug; device_type = r.device_type; plugin_id = some r.id }

abbrev pub fallback_devices : List Str
fallback_devices = codes "matisse" ∷ codes "libreoffice" ∷ codes "mirai-libreoffice" ∷ []

abbrev pub fallback_device : Str → Option Device
fallback_device device =
    if elem device fallback_devices
    then some (record { device_name = device; device_type = device; plugin_id = none })
    else none

abbrev pub by_alias : Str → Plugins → Option ℕ → Option Device
by_alias device t none = fallback_device device
by_alias device t (some id) = elim (find_plugin (λ (r : PluginRow). r.id == id) t.rows) [
  | none ↦ fallback_device device
  | some r ↦ some (device_of r)
]

-- the slug, then the alias, then the names that need no catalogue
unfoldable pub resolve_device : Str → Plugins → Option Device
resolve_device device t = elim (find_plugin (λ (r : PluginRow). r.slug == device) t.rows) [
  | some r ↦ some (device_of r)
  | none ↦ by_alias device t (Dict.get t.aliases device)
]

-- the column `access_mode` with what goes with it
pub data Access : Type 0 where
  open_access : Access
  keycloak_group : Str → Access
  waitlist : Access
  other_access : Access

abbrev pub in_group : Str → Option (List Str) → Bool
in_group required none = false
in_group required (some groups) = elem required groups

abbrev pub header : Dict Str Str → Str → Str
header headers name = or_else (Dict.get headers name) []

-- `groups_of` reads the groups of the token after "Bearer ", without its signature; `approved` are
-- the addresses of the plugin's waiting list.
unfoldable pub check_plugin_access :
    (Str → Option (List Str)) → List Str → Dict Str Str → Option Access → Bool
check_plugin_access groups_of approved headers none = true
check_plugin_access groups_of approved headers (some open_access) = true
check_plugin_access groups_of approved headers (some (keycloak_group [])) = true
check_plugin_access groups_of approved headers (some (keycloak_group (c ∷ s))) =
    starts_with (codes "bearer ") (lower (header headers (codes "authorization")))
    && in_group (c ∷ s) (groups_of (header headers (codes "authorization")))
check_plugin_access groups_of approved headers (some waitlist) =
    let email = strip (header headers (codes "x-user-email")) in
    nonempty email && elem email approved
check_plugin_access groups_of approved headers (some other_access) = true
