-- ===== src/RuntimeConfig/Process.antt =====
-- The process of app/runtime_config.py: the snapshot of the environment at startup, the application
-- of overrides to the environment and to `Settings`, and the reload from the tables
-- `config_state` and `config_overrides` of db/schema.sql. The hooks after a reload are left out.
use device_management.Prelude.Dict
use device_management.Prelude.Dict.{Dict}
use device_management.Prelude.Text.{starts_with, drop_prefix}
use device_management.RuntimeConfig.Keys.{ValueType, str_type, list_type, ConfigKeySpec}
use device_management.RuntimeConfig.{Py, nothing, text, items, Lib, coerce, to_env_str}
use device_management.Prelude.{
  ℕ, String, Bool, true, false, not, ◌&&◌, Option, none, some, List, [], ◌∷◌, ◌++◌, if◌then◌else◌,
  or_else, any, ◌==◌, nat_eq, string_eq, pair_eq, list_eq, Str, codes,
}

-- `Fernet` of the library cryptography under the key of DM_CONFIG_SECRET_KEY; `none` is its
-- `InvalidToken`.
pub record Fernet : Type 0 where
  pub encrypt : Str → Str
  pub decrypt : Str → Option Str

pub record OverrideRow : Type 0 where
  pub value : Str
  pub value_type : ValueType
  pub is_secret : Bool
  pub updated_by : Option String
  pub updated_at : ℕ

-- `config_state` has one row, or none before it is created.
pub record Tables : Type 0 where
  pub generation : Option ℕ
  pub overrides : Dict String OverrideRow

pub record Meta : Type 0 where
  pub value : Py
  pub is_secret : Bool
  pub updated_by : Option String
  pub updated_at : ℕ

-- `os.environ`, the fields of `Settings` and the variables of the module. The generation that no
-- reload has set, -1, is `none`.
pub record Process : Type 0 where
  pub environ : Dict String Str
  pub settings : Dict String Py
  pub baseline : Dict String Py
  pub overrides_meta : Dict String Meta
  pub applied_generation : Option ℕ
  pub config_ready : Bool
  pub baseline_ready : Bool
  pub gate_enabled : Bool

abbrev pub enc_prefix : Str
enc_prefix = codes "enc:v1:"

-- `none` is a `RuntimeError`
unfoldable pub encrypt_secret : Option Fernet → Str → Option Str
encrypt_secret none plaintext = none
encrypt_secret (some f) plaintext = some (enc_prefix ++ f.encrypt plaintext)

abbrev pub decrypted : Option Fernet → Str → Option Str
decrypted none token = none
decrypted (some f) token = f.decrypt token

unfoldable pub decrypt_secret : Option Fernet → Str → Option Str
decrypt_secret fernet stored =
    if starts_with enc_prefix stored
    then decrypted fernet (drop_prefix enc_prefix stored)
    else some stored

-- a setting as the environment has it at startup; `none` is an exception
abbrev pub from_env : Lib → ConfigKeySpec → Str → Option Py
from_env lib spec (c ∷ s) = coerce lib (text (c ∷ s)) spec.value_type
from_env lib spec [] = elim spec.value_type [
  | list_type ↦ some (items [])
  | str_type ↦ some (text [])
  | other ↦ some nothing
]

abbrev pub baseline_of : Lib → Process → ConfigKeySpec → Option Py
baseline_of lib p spec = elim spec.settings_field [
  | some field ↦ some (or_else (Dict.get p.settings field) nothing)
  | none ↦ from_env lib spec (or_else (Dict.get p.environ spec.env_name) [])
]

-- the loop over the keys; an exception ends it
unfoldable pub snapshot : Lib → List ConfigKeySpec → Process → Process
snapshot lib [] p = record p { baseline_ready = true }
snapshot lib (spec ∷ specs) p = elim (baseline_of lib p spec) [
  | none ↦ p
  | some py ↦ snapshot lib specs (record p { baseline = Dict.put p.baseline spec.env_name py })
]

unfoldable pub snapshot_baseline : Lib → List ConfigKeySpec → Bool → Process → Process
unfolding snapshot
snapshot_baseline lib specs force p =
    if p.baseline_ready && not force then p else snapshot lib specs p

abbrev pub set_field : Option String → Py → Dict String Py → Dict String Py
set_field none py settings = settings
set_field (some field) py settings = Dict.put settings field py

unfoldable pub apply_one : Lib → ConfigKeySpec → Py → Process → Process
apply_one lib spec py p = record p {
  environ = Dict.put p.environ spec.env_name (to_env_str lib py spec.value_type);
  settings = set_field spec.settings_field py p.settings;
}

-- an override where there is one, and else the value at startup
unfoldable pub effective : Dict String Py → Dict String Py → String → Py
effective baseline overrides env =
    or_else (Dict.get overrides env) (or_else (Dict.get baseline env) nothing)

unfoldable pub apply_state : Lib → List ConfigKeySpec → Dict String Py → Process → Process
unfolding apply_one effective
apply_state lib [] overrides p = p
apply_state lib (spec ∷ specs) overrides p =
    apply_state lib specs overrides
      (apply_one lib spec (effective p.baseline overrides spec.env_name) p)

abbrev pub editable : List ConfigKeySpec → String → Bool
editable specs key = any (λ (s : ConfigKeySpec). s.env_name == key) specs

abbrev pub coerced : Lib → ValueType → Option Str → Option Py
coerced lib value_type none = none
coerced lib value_type (some raw) = coerce lib (text raw) value_type

-- what a row stands for; `none` is an exception, for which the row is skipped
unfoldable pub decode : Lib → Option Fernet → OverrideRow → Option Py
unfolding decrypt_secret
decode lib fernet row =
    coerced lib row.value_type
      (if row.is_secret then decrypt_secret fernet row.value else some row.value)

abbrev pub with_value : String → Option Py → Dict String Py → Dict String Py
with_value key none rest = rest
with_value key (some py) rest = (key, py) ∷ rest

-- the values of the rows whose keys are editable and that can be decoded; a key has one row
unfoldable pub overrides_py :
    Lib → Option Fernet → List ConfigKeySpec → Dict String OverrideRow → Dict String Py
overrides_py lib fernet specs [] = []
overrides_py lib fernet specs ((key, row) ∷ rows) =
    let rest = overrides_py lib fernet specs rows in
    if editable specs key then with_value key (decode lib fernet row) rest else rest

abbrev pub with_meta : String → OverrideRow → Option Py → Dict String Meta → Dict String Meta
with_meta key row none rest = rest
with_meta key row (some py) rest =
    (
      key,
      record {
        value = py;
        is_secret = row.is_secret;
        updated_by = row.updated_by;
        updated_at = row.updated_at;
      },
    )
    ∷ rest

unfoldable pub overrides_meta :
    Lib → Option Fernet → List ConfigKeySpec → Dict String OverrideRow → Dict String Meta
overrides_meta lib fernet specs [] = []
overrides_meta lib fernet specs ((key, row) ∷ rows) =
    let rest = overrides_meta lib fernet specs rows in
    if editable specs key then with_meta key row (decode lib fernet row) rest else rest

abbrev pub newer_generation : Option ℕ → Option ℕ → Option ℕ
newer_generation none applied = applied
newer_generation (some g) applied = some g

-- `reload_overrides` once it has the generation and the rows: the application to the process, and
-- the mark that the generation is applied, which is set outside the lock.
unfoldable pub apply_rows :
    Lib → Option Fernet → List ConfigKeySpec → Dict String OverrideRow → Process → Process
apply_rows lib fernet specs rows p =
    apply_state lib specs (overrides_py lib fernet specs rows)
      (record p { overrides_meta = overrides_meta lib fernet specs rows })

abbrev pub mark_applied : Option ℕ → Process → Process
mark_applied generation p = record p {
  applied_generation = newer_generation generation p.applied_generation;
  config_ready = true;
}

unfoldable pub reload_rows :
    Lib
    → Option Fernet
    → List ConfigKeySpec
    → Option ℕ
    → Dict String OverrideRow
    → Process
    → Process
unfolding apply_rows
reload_rows lib fernet specs generation rows p =
    mark_applied generation (apply_rows lib fernet specs rows p)

unfoldable pub reload_overrides :
    Lib → Option Fernet → List ConfigKeySpec → Tables → Process → Process
reload_overrides lib fernet specs t p = reload_rows lib fernet specs t.generation t.overrides p

unfoldable pub should_gate_requests : Process → Bool
should_gate_requests p = p.gate_enabled && not p.config_ready

abbrev pub applied_is : ℕ → Option ℕ → Bool
applied_is g none = false
applied_is g (some a) = a == g

-- the part of an iteration of `run_config_sync_loop` that follows the generation
unfoldable pub sync_process : Lib → Option Fernet → List ConfigKeySpec → Tables → Process → Process
unfolding reload_overrides
sync_process lib fernet specs t p = elim t.generation [
  | none ↦ p
  | some g ↦ if applied_is g p.applied_generation then p else reload_overrides lib fernet specs t p
]
