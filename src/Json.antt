-- ===== src/Json.antt =====
-- JSON values, as `json.loads` returns them: the payloads, configurations and templates.
use device_management.Prelude.{
  String, Bool, true, false, Option, none, some, if◌then◌else◌, ◌==◌, nat_eq, string_eq, pair_eq, ℤ,
}

mutual
  pub data Json : Type 0 where
    null : Json
    bool : Bool → Json
    num : ℤ → Json
    str : String → Json
    arr : Items → Json
    obj : Fields → Json

  pub data Items : Type 0 where
    nil : Items
    cons : Json → Items → Items

  -- the keys of an object, in order
  pub data Fields : Type 0 where
    end : Fields
    field : String → Json → Fields → Fields

-- `isinstance(value, dict)`
abbrev pub is_dict : Json → Bool
is_dict (obj fs) = true
is_dict _ = false

-- `d.get(key)` on the fields of an object
unfoldable pub get_field : Fields → String → Option Json
get_field end key = none
get_field (field k v fs) key = if k == key then some v else get_field fs key
