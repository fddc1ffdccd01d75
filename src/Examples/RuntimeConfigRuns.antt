-- ===== src/Examples/RuntimeConfigRuns.antt =====
-- Settings that an administrator changes, and a process that reloads them.
use device_management.Prelude.Dict
use device_management.Prelude.Dict.{Dict}
use device_management.RuntimeConfig.{Py, nothing, int, text, coerce_input, to_env_str}
use device_management.Examples.ToyJson.{json, json_laws}
use device_management.RuntimeConfig.Keys.{ConfigKeySpec, str_type, int_type, spec, secret, within}
use device_management.RuntimeConfig.Process.{
  Fernet, OverrideRow, Tables, Process, reload_rows, reload_overrides, sync_process,
}
use device_management.RuntimeConfig.Admin.{
  Request, Server, updated, config_set, set_override, bump_generation,
}
use device_management.RuntimeConfig.Applied.{DistinctNames, Applied}
use device_management.RuntimeConfig.Stored.{FernetLaws, SecretsAreTexts}
use device_management.RuntimeConfig.TakesEffect.{decoded_row, row_of, config_set-takes_effect}
use device_management.RuntimeConfig.Nulls.{config_set-null_number}
use device_management.RuntimeConfig.Sync
use device_management.RuntimeConfig.Sync.{Reach}
use device_management.RuntimeConfig.Sync.Invariant.{Reach-Applied, sync_process-converges}
use device_management.RuntimeConfig.Fleet.{Conditions, Identity, Loop, Pod, healthy, iterate}
use device_management.RuntimeConfig.Fleet.Pods.{find_pod}
use device_management.RuntimeConfig.Fleet.Life.{iterate-alive}
use device_management.Prelude.{
  ◌≡◌, refl, sym, ap, ◌∙◌, ◌≢◌, true, false, none, some, List, [], ◌∷◌, Memᴰ, false-ne-true, Each,
  nat_eq, string_eq, pair_eq, pos, list_eq, codes, decimal,
}

abbrev fernet : Fernet
fernet = record { encrypt = λ s. s; decrypt = λ s. some s }

fernet_laws : FernetLaws fernet
fernet_laws = record { decrypt-encrypt = λ s. refl }

abbrev quota : ConfigKeySpec
quota = within (some (pos 0)) none (spec "LLM_QUOTA_REQUESTS_PER_MINUTE" int_type true)

abbrev api_token : ConfigKeySpec
api_token = secret (spec "LLM_API_TOKEN" str_type true)

abbrev keys : List ConfigKeySpec
keys = quota ∷ api_token ∷ []

apart : api_token.env_name ≢ quota.env_name
apart e = false-ne-true ((string_eq.beq_iff api_token.env_name quota.env_name).1 e)

keys_apart : Each (λ (k : ConfigKeySpec). k.env_name ≢ quota.env_name) (api_token ∷ [])
keys_apart t (Memᴰ.head e) q = apart (ap (λ (k : ConfigKeySpec). k.env_name) (sym e) ∙ q)
keys_apart t (Memᴰ.tail m) q = elim m [ ]

none_left : Each (λ (k : ConfigKeySpec). k.env_name ≢ api_token.env_name) []
none_left t m q = elim m [ ]

keys_distinct : DistinctNames keys
keys_distinct = (keys_apart, (none_left, tt))

keys_texts : SecretsAreTexts keys
keys_texts t (Memᴰ.head e) h =
    absurd (false-ne-true (ap (λ (k : ConfigKeySpec). k.sensitive) (sym e) ∙ h))
keys_texts t (Memᴰ.tail (Memᴰ.head e)) h = ap (λ (k : ConfigKeySpec). k.value_type) e
keys_texts t (Memᴰ.tail (Memᴰ.tail m)) h = elim m [ ]

abbrev stored : OverrideRow
stored = record {
  value = codes "45";
  value_type = int_type;
  is_secret = false;
  updated_by = none;
  updated_at = 7;
}

abbrev tables : Tables
tables = record { generation = some 4; overrides = (quota.env_name, stored) ∷ [] }

abbrev fresh : Process
fresh = record {
  environ = [];
  settings = [];
  baseline = (quota.env_name, int (pos 60)) ∷ (api_token.env_name, text (codes "t")) ∷ [];
  overrides_meta = [];
  applied_generation = none;
  config_ready = false;
  baseline_ready = true;
  gate_enabled = false;
}

abbrev server : Server
server = record { tables = tables; audit = []; process = fresh }

abbrev put_quota : Py → Request
put_quota value = record {
  editing_enabled = true;
  csrf_valid = true;
  key = quota.env_name;
  body = some value;
  actor_email = some "a@b";
  now = 100;
  fails = false;
  reload_works = true;
}

accepted : coerce_input json quota (int (pos 30)) ≡ some (int (pos 30))
unfolding coerce_input
accepted = refl

proper : int (pos 30) ≢ nothing
proper e = false-ne-true (sym (ap (λ v. elim v [ int z ↦ true | other ↦ false ]) e))

config_set-takes_effect_example :
    let (after, response) = config_set json (some fernet) keys (put_quota (int (pos 30))) server in
    (response ≡ updated false 5)
    × (after.tables.generation ≡ some 5)
    × (decoded_row json (some fernet) keys (Dict.get after.tables.overrides quota.env_name)
        ≡ some (int (pos 30)))
    × (Dict.get after.tables.overrides api_token.env_name
        ≡ Dict.get tables.overrides api_token.env_name)
    × (Dict.get after.process.environ quota.env_name ≡ some (codes "30"))
    × (Dict.get after.process.environ api_token.env_name
        ≡ Dict.get
            (reload_overrides json (some fernet) keys tables fresh).environ
            api_token.env_name)
unfolding Dict.get to_env_str decimal
config_set-takes_effect_example =
    config_set-takes_effect json json_laws fernet fernet_laws keys (put_quota (int (pos 30))) server
      keys_distinct keys_texts (Memᴰ.head refl) (Memᴰ.tail (Memᴰ.head refl)) refl apart refl refl
      refl refl accepted proper refl (refl, tt)

config_set-null_number_example :
    let (after, response) = config_set json (some fernet) keys (put_quota nothing) server in
    (response ≡ updated false 5)
    × ((Dict.get after.tables.overrides quota.env_name
          ≡ some (row_of json json_laws fernet fernet_laws keys (put_quota nothing) quota []))
        × (Dict.get after.process.environ quota.env_name ≡ some (codes "60")))
unfolding Dict.get to_env_str decimal
config_set-null_number_example =
    config_set-null_number json json_laws fernet fernet_laws keys (put_quota nothing) server
      keys_distinct (Memᴰ.head refl) refl refl refl refl refl refl refl refl (refl, tt)

abbrev world : Sync.World
world = record { tables = tables; process = fresh; phases = λ who. Sync.idle }

world-Fresh : Sync.Fresh world
world-Fresh = (refl, λ who. refl)

abbrev later_row : OverrideRow
later_row = record stored { value = codes "50" }

abbrev later_tables : Tables
later_tables = record {
  generation = some 5;
  overrides = set_override quota.env_name later_row tables.overrides;
}

-- a reload that has applied what it read, while another process has set the key
abbrev overtaken_world : Sync.World
overtaken_world = record {
  tables = later_tables;
  process = reload_rows json (some fernet) keys (some 4) tables.overrides fresh;
  phases = Sync.put Sync.by_loop Sync.idle (
      Sync.put Sync.by_loop (Sync.applied (some 4)) (
        Sync.put Sync.by_loop (Sync.loaded (some 4) tables.overrides)
          (Sync.put Sync.by_loop (Sync.reading (some 4)) world.phases)));
}

Reach-overtaken : Reach json (some fernet) keys false world overtaken_world
unfolding bump_generation reload_rows
Reach-overtaken =
    Reach.next
      (Reach.next
        (Reach.next
          (Reach.next (Reach.next Reach.here (Sync.Step.begins Sync.by_loop refl refl))
            (Sync.Step.loads Sync.by_loop (some 4) refl))
          (Sync.Step.sets quota.env_name later_row refl))
        (Sync.Step.applies Sync.by_loop (some 4) tables.overrides refl))
      (Sync.Step.marks Sync.by_loop (some 4) refl)

overtaken-Quiet : Sync.Quiet overtaken_world
overtaken-Quiet Sync.by_loop = refl
overtaken-Quiet Sync.by_request = refl

sync_process-converges_example :
    let p = sync_process json (some fernet) keys later_tables overtaken_world.process in
    (p.applied_generation ≡ some 5) × Applied json (some fernet) keys later_tables.overrides p
sync_process-converges_example =
    sync_process-converges json (some fernet) keys {v = overtaken_world} keys_distinct world-Fresh
      Reach-overtaken overtaken-Quiet refl

-- a world that has reloaded without a change in between
abbrev reloaded_world : Sync.World
reloaded_world = record {
  tables = tables;
  process = overtaken_world.process;
  phases = overtaken_world.phases;
}

Reach-reloaded : Reach json (some fernet) keys false world reloaded_world
unfolding reload_rows
Reach-reloaded =
    Reach.next
      (Reach.next
        (Reach.next (Reach.next Reach.here (Sync.Step.begins Sync.by_loop refl refl))
          (Sync.Step.loads Sync.by_loop (some 4) refl))
        (Sync.Step.applies Sync.by_loop (some 4) tables.overrides refl))
      (Sync.Step.marks Sync.by_loop (some 4) refl)

reloaded_generation : reloaded_world.process.applied_generation ≡ some 4
unfolding reload_rows
reloaded_generation = refl

Reach-Applied_example : Applied json (some fernet) keys tables.overrides reloaded_world.process
Reach-Applied_example =
    Reach-Applied json (some fernet) keys {v = reloaded_world} keys_distinct world-Fresh
      Reach-reloaded refl reloaded_generation

abbrev identity : Identity
identity = record {
  pod_name = "dm-1";
  node_name = none;
  runtime_mode = "api";
  pid = 1;
  pod_ip = none;
  port = 3001;
  app_version = "1.0";
}

-- the pod was silent for too long and has been removed
abbrev conditions : Conditions
conditions = record {
  fault = healthy;
  tables = tables;
  identity = identity;
  health = record {
    rss_bytes = none;
    mem_limit_bytes = none;
    load1 = none;
    cpu_count = none;
    requests_total = 0;
  };
  now = 5000;
  monotonic = 100000000;
  ttl = 600;
  reaper_role = true;
}

abbrev silent : Loop
silent = record { process = fresh; pods = []; enrolled = true; last_reap = 0 }

iterate-alive_example :
    let after = iterate json (some fernet) keys conditions silent in
    (pod : Pod) × ((find_pod "dm-1" after.pods ≡ some pod)
      × ((pod.last_heartbeat_at ≡ 5000)
          × ((pod.applied_generation ≡ after.process.applied_generation)
              × (after.enrolled ≡ true))))
iterate-alive_example = iterate-alive json (some fernet) keys conditions silent refl
