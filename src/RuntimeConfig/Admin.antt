-- ===== src/RuntimeConfig/Admin.antt =====
-- The handlers `config_set` and `config_reset` of app/admin/router.py, over the statements of
-- app/admin/services/runtime_config.py. A transaction that raises is rolled back.
use device_management.Prelude.Dict
use device_management.Prelude.Dict.{Dict}
use device_management.RuntimeConfig.Keys.{ConfigKeySpec}
use device_management.RuntimeConfig.{Py, Lib, str_of, to_stored_value, coerce_input}
use device_management.RuntimeConfig.Process.{
  Fernet, OverrideRow, Tables, Process, encrypt_secret, reload_overrides, editable,
}
use mathlib.Core.Option
use device_management.Prelude.{
  ℕ, suc, String, Bool, not, Option, none, some, List, [], ◌∷◌, ◌++◌, if◌then◌else◌, is_some, ◌==◌,
  nat_eq, string_eq, pair_eq, list_eq, Str,
}

-- `WHERE key = %s`
abbrev pub find_spec : List ConfigKeySpec → String → Option ConfigKeySpec
find_spec [] key = none
find_spec (s ∷ specs) key = if s.env_name == key then some s else find_spec specs key

unfoldable pub set_override :
    String → OverrideRow → Dict String OverrideRow → Dict String OverrideRow
set_override key row rows = Dict.put rows key row

-- the rows that are left, and whether there was one
unfoldable pub delete_override : String → Dict String OverrideRow → Dict String OverrideRow × Bool
delete_override key rows = (Dict.pop rows key, is_some (Dict.get rows key))

-- `none` is the exception on a table without its row
unfoldable pub bump_generation : Option ℕ → Option ℕ
bump_generation none = none
bump_generation (some g) = some (suc g)

-- an entry of `audit_log`, with the values that its payload holds
pub record AuditEntry : Type 0 where
  pub action : String
  pub resource_id : String
  pub before : Option Str
  pub after : Option Py

pub data Response : Type 0 where
  http_error : ℕ → Response
  updated : Bool → ℕ → Response
  removed : Bool → ℕ → Response

-- `fails` says that the transaction raises an exception, and `reload_works` that the reload after it
-- has a connection and raises none; `body` is `none` where it is not JSON.
pub record Request : Type 0 where
  pub editing_enabled : Bool
  pub csrf_valid : Bool
  pub key : String
  pub body : Option Py
  pub actor_email : Option String
  pub now : ℕ
  pub fails : Bool
  pub reload_works : Bool

pub record Server : Type 0 where
  pub tables : Tables
  pub audit : List AuditEntry
  pub process : Process

abbrev pub denied : String → Server → Server
denied key s = record s {
  audit =
      s.audit
      ++ record {
        action = "config.override.denied";
        resource_id = key;
        before = none;
        after = none;
      }
        ∷ [];
}

module _ (lib : Lib) (fernet : Option Fernet) (specs : List ConfigKeySpec) where
  -- the text that is stored; `none` is the missing key of encryption
  unfoldable pub stored_value : ConfigKeySpec → Py → Option Str
  stored_value spec py =
      if spec.sensitive
      then encrypt_secret fernet (str_of lib py)
      else some (to_stored_value lib spec py)

  -- `force_local_reload`, whose failure the handlers pass over
  abbrev pub reloaded : Request → Server → Server
  reloaded r s = record s {
    process =
        if r.reload_works then reload_overrides lib fernet specs s.tables s.process else s.process;
  }

  abbrev pub set_entry : Request → ConfigKeySpec → Py → Option OverrideRow → AuditEntry
  set_entry r spec py old = record {
    action = "config.override.set";
    resource_id = r.key;
    before = if spec.sensitive then none else Option.map (λ (row : OverrideRow). row.value) old;
    after = if spec.sensitive then none else some py;
  }

  abbrev pub commit_set : Request → ConfigKeySpec → Py → Str → Option ℕ → Server → Server × Response
  commit_set r spec py stored none s = (s, http_error 400)
  commit_set r spec py stored (some generation) s = (
    reloaded r (record s {
      tables = record {
        generation = some generation;
        overrides =
            set_override r.key
              (record {
                value = stored;
                value_type = spec.value_type;
                is_secret = spec.sensitive;
                updated_by = r.actor_email;
                updated_at = r.now;
              })
              s.tables.overrides;
      };
      audit = s.audit ++ set_entry r spec py (Dict.get s.tables.overrides r.key) ∷ [];
    }),
    updated (not spec.hot_reloadable) generation,
  )

  abbrev pub store_value : Request → ConfigKeySpec → Py → Option Str → Server → Server × Response
  store_value r spec py none s = (s, http_error 503)
  store_value r spec py (some stored) s =
      if r.fails
      then (s, http_error 400)
      else commit_set r spec py stored (bump_generation s.tables.generation) s

  abbrev pub set_value : Request → ConfigKeySpec → Option Py → Server → Server × Response
  set_value r spec none s = (s, http_error 400)
  set_value r spec (some py) s = store_value r spec py (stored_value spec py) s

  abbrev pub read_body : Request → ConfigKeySpec → Option Py → Server → Server × Response
  read_body r spec none s = (s, http_error 400)
  read_body r spec (some value) s = set_value r spec (coerce_input lib spec value) s

  abbrev pub with_spec : Request → Option ConfigKeySpec → Server → Server × Response
  with_spec r none s = (denied r.key s, http_error 404)
  with_spec r (some spec) s = read_body r spec r.body s

  unfoldable pub config_set : Request → Server → Server × Response
  unfolding set_override bump_generation stored_value
  config_set r s =
      if not r.editing_enabled
      then (denied r.key s, http_error 403)
      else if not r.csrf_valid
      then (s, http_error 403)
      else with_spec r (find_spec specs r.key) s

  abbrev pub commit_reset : Request → Option ℕ → Server → Server × Response
  commit_reset r none s = (s, http_error 400)
  commit_reset r (some generation) s =
      let (rows, existed) = delete_override r.key s.tables.overrides in
      (
        reloaded r (record s {
          tables = record { generation = some generation; overrides = rows };
          audit =
              s.audit
              ++ record {
                action = "config.override.reset";
                resource_id = r.key;
                before = none;
                after = none;
              }
                ∷ [];
        }),
        removed existed generation,
      )

  unfoldable pub config_reset : Request → Server → Server × Response
  unfolding delete_override bump_generation
  config_reset r s =
      if not r.editing_enabled
      then (s, http_error 403)
      else if not r.csrf_valid
      then (s, http_error 403)
      else if not (editable specs r.key)
      then (s, http_error 404)
      else if r.fails
      then (s, http_error 400)
      else commit_reset r (bump_generation s.tables.generation) s
