-- ===== src/RuntimeConfig.antt =====
-- app/runtime_config.py: the settings that administrators override while the server runs. Here are
-- the values of Python that a setting has, and the conversions `_parse_list`, `_coerce`,
-- `_to_env_str`, `coerce_input` and `to_stored_value`.
pub mod Keys
pub mod Process
pub mod Admin
pub mod Applied
pub mod Stored
pub mod TakesEffect
pub mod Sync
pub mod Nulls
pub mod Fleet
use mathlib.Core.Option
use device_management.RuntimeConfig.Keys.{
  ValueType, bool_type, int_type, str_type, list_type, ConfigKeySpec,
}
use device_management.Prelude.Text.{split_on, int_of, starts_with, nonempty, str_int}
use device_management.Prelude.{
  zero, refl, Bool, true, false, not, ◌&&◌, Option, none, some, List, [], ◌∷◌, map, arith,
  if◌then◌else◌, or_else, select, nat_eq, string_eq, pair_eq, ℤ, pos, list_eq, Str, codes, lower,
  strip, elem, int_ltb,
}

-- What a setting is in Python, in a request's JSON and after its conversion; without fractions.
pub data Py : Type 0 where
  nothing : Py
  bool : Bool → Py
  int : ℤ → Py
  text : Str → Py
  items : List Str → Py

-- What the standard library does: `json.dumps` and `json.loads` of a list of texts, and its `repr`.
pub record Lib : Type 0 where
  pub dumps : List Str → Str
  pub loads : Str → Option (List Str)
  pub repr : List Str → Str

-- `str(value)`
unfoldable pub str_of : Lib → Py → Str
str_of lib nothing = codes "None"
str_of lib (bool true) = codes "True"
str_of lib (bool false) = codes "False"
str_of lib (int z) = str_int z
str_of lib (text s) = s
str_of lib (items xs) = lib.repr xs

-- `str(raw or "")`
unfoldable pub text_or_empty : Lib → Py → Str
text_or_empty lib nothing = []
text_or_empty lib (bool true) = codes "True"
text_or_empty lib (bool false) = []
text_or_empty lib (int (pos zero)) = []
text_or_empty lib (int z) = str_int z
text_or_empty lib (text s) = s
text_or_empty lib (items []) = []
text_or_empty lib (items xs) = lib.repr xs

-- the items of a text between commas
abbrev pub comma_separated : Str → List Str
comma_separated s = select nonempty (map strip (split_on b',' s))

abbrev pub parse_text : Lib → Str → List Str
parse_text lib [] = []
parse_text lib (c ∷ s) =
    if starts_with (codes "[") (c ∷ s)
    then or_else (lib.loads (c ∷ s)) (comma_separated (c ∷ s))
    else comma_separated (c ∷ s)

unfoldable pub parse_list : Lib → Py → List Str
unfolding text_or_empty
parse_list lib (items xs) = xs
parse_list lib raw = parse_text lib (strip (text_or_empty lib raw))

-- `str(value).strip().lower() in ("1", "true", "yes", "on")`
abbrev pub truthy : Str → Bool
truthy s = elem (lower (strip s)) (codes "1" ∷ codes "true" ∷ codes "yes" ∷ codes "on" ∷ [])

unfoldable pub as_bool : Lib → Py → Bool
unfolding str_of
as_bool lib (bool b) = b
as_bool lib value = truthy (str_of lib value)

-- `int(value)`; `none` is its `ValueError` or `TypeError`
unfoldable pub as_int : Py → Option ℤ
as_int nothing = none
as_int (bool true) = some (pos 1)
as_int (bool false) = some (pos 0)
as_int (int z) = some z
as_int (text s) = int_of s
as_int (items xs) = none

abbrev pub coerce_value : Lib → Py → ValueType → Option Py
coerce_value lib value bool_type = some (bool (as_bool lib value))
coerce_value lib value int_type = Option.map int (as_int value)
coerce_value lib value str_type = some (text (str_of lib value))
coerce_value lib value list_type = some (items (parse_list lib value))

-- `_coerce`; `none` is an exception
unfoldable pub coerce : Lib → Py → ValueType → Option Py
unfolding as_bool as_int str_of parse_list
coerce lib nothing value_type = some nothing
coerce lib value value_type = coerce_value lib value value_type

unfoldable pub to_env_str : Lib → Py → ValueType → Str
unfolding as_bool parse_list str_of
to_env_str lib nothing value_type = []
to_env_str lib value bool_type = if as_bool lib value then codes "true" else codes "false"
to_env_str lib value list_type = lib.dumps (parse_list lib value)
to_env_str lib value _ = str_of lib value

unfoldable pub to_stored_value : Lib → ConfigKeySpec → Py → Str
unfolding to_env_str parse_list
to_stored_value lib spec py = elim spec.value_type [
  | list_type ↦ lib.dumps (parse_list lib py)
  | other ↦ to_env_str lib py other
]

abbrev pub below : ℤ → Option ℤ → Bool
below z none = false
below z (some low) = int_ltb z low

abbrev pub above : ℤ → Option ℤ → Bool
above z none = false
above z (some high) = int_ltb high z

-- the loop over the items of a list: each once, stripped, and none empty
unfoldable pub cleaned : List Str → List Str → List Str
cleaned seen [] = []
cleaned seen (x ∷ xs) =
    let fresh = strip x ∷ cleaned (strip x ∷ seen) xs in
    let rest = cleaned seen xs in
    if nonempty (strip x) && not (elem (strip x) seen) then fresh else rest

-- what is checked once the value has its type; `none` is an exception
unfoldable pub check_input : ConfigKeySpec → Py → Option Py
unfolding cleaned
check_input spec (int z) =
    if below z spec.minimum then none else if above z spec.maximum then none else some (int z)
check_input spec (items xs) = some (items (cleaned [] xs))
check_input spec nothing = elim spec.value_type [ list_type ↦ none | other ↦ some nothing ]
check_input spec py = some py

abbrev pub then_check : ConfigKeySpec → Option Py → Option Py
then_check spec none = none
then_check spec (some py) = check_input spec py

unfoldable pub coerce_input : Lib → ConfigKeySpec → Py → Option Py
unfolding coerce check_input
coerce_input lib spec value = then_check spec (coerce lib value spec.value_type)
