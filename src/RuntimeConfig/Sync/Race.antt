-- ===== src/RuntimeConfig/Sync/Race.antt =====
-- Two reloads of one process at once: a request of an administrator reloads while the loop does.
use device_management.RuntimeConfig.Keys.{ConfigKeySpec}
use device_management.RuntimeConfig.{Lib}
use device_management.RuntimeConfig.Process.{Fernet, OverrideRow, Tables, Process}
use device_management.RuntimeConfig.Admin.{set_override}
use device_management.RuntimeConfig.Applied.{Applied}
use device_management.Prelude.{ℕ, String, Option, some, List, nat_eq, string_eq, pair_eq, list_eq}

module _ (lib : Lib) (fernet : Option Fernet) (specs : List ConfigKeySpec) where
  -- the tables after an administrator has set a key
  abbrev pub set_tables : String → OverrideRow → ℕ → Tables → Tables
  set_tables key row g t = record {
    generation = some g;
    overrides = set_override key row t.overrides;
  }
