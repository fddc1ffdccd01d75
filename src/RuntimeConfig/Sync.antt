-- ===== src/RuntimeConfig/Sync.antt =====
-- Administrators change the tables while a process reloads them. A reload reads the generation, then
-- the rows, applies the rows under the lock and marks the generation as applied after it; what other
-- processes commit comes in between. Both the loop of the process and a request of an administrator
-- reload.
mod Order
mod Phases
pub mod Invariant
pub mod Race
use device_management.Prelude.Dict.{Dict}
use device_management.RuntimeConfig.Keys.{ConfigKeySpec}
use device_management.RuntimeConfig.{Lib}
use device_management.RuntimeConfig.Process.{
  Fernet, OverrideRow, Tables, Process, apply_rows, mark_applied,
}
use device_management.RuntimeConfig.Admin.{set_override, delete_override, bump_generation}
use device_management.Prelude.{
  ℕ, String, ◌≡◌, refl, Bool, true, false, Option, none, some, List, [], ◌∷◌, arith, if◌then◌else◌,
  nat_eq, string_eq, pair_eq, list_eq,
}

pub data Reloader : Type 0 where
  by_loop by_request : Reloader

abbrev pub other : Reloader → Reloader
other by_loop = by_request
other by_request = by_loop

-- How far a reload is: the generation that it has read, and the rows.
pub data Phase : Type 0 where
  idle : Phase
  reading : Option ℕ → Phase
  loaded : Option ℕ → Dict String OverrideRow → Phase
  applied : Option ℕ → Phase

abbrev pub put : Reloader → Phase → (Reloader → Phase) → Reloader → Phase
put by_loop p phases by_loop = p
put by_loop p phases by_request = phases by_request
put by_request p phases by_loop = phases by_loop
put by_request p phases by_request = p

pub record World : Type 0 where
  pub tables : Tables
  pub process : Process
  pub phases : Reloader → Phase

-- Nothing keeps a reload from beginning while another runs; `overlap` says whether that happens.
abbrev pub MayBegin : Bool → Phase → Type 0
MayBegin true p = Unit
MayBegin false p = p ≡ idle

module _ (lib : Lib) (fernet : Option Fernet) (specs : List ConfigKeySpec) (overlap : Bool) where
  pub data Step (w : World) : World → Type 0 where
    -- the transactions of `config_set` and `config_reset`, of any process
    sets :
        (key : String) (row : OverrideRow) {g : ℕ}
        → bump_generation w.tables.generation ≡ some g
        → Step w (record w {
          tables = record {
            generation = some g;
            overrides = set_override key row w.tables.overrides;
          };
        })
    resets :
        (key : String) {g : ℕ}
        → bump_generation w.tables.generation ≡ some g
        → Step w (record w {
          tables = record {
            generation = some g;
            overrides = (delete_override key w.tables.overrides).0;
          };
        })
    -- `reload_overrides`, statement by statement
    begins :
        (who : Reloader)
        → w.phases who ≡ idle
        → MayBegin overlap (w.phases (other who))
        → Step w (record w { phases = put who (reading w.tables.generation) w.phases })
    loads :
        (who : Reloader) (generation : Option ℕ)
        → w.phases who ≡ reading generation
        → Step w (record w { phases = put who (loaded generation w.tables.overrides) w.phases })
    applies :
        (who : Reloader) (generation : Option ℕ) (rows : Dict String OverrideRow)
        → w.phases who ≡ loaded generation rows
        → Step w (record w {
          process = apply_rows lib fernet specs rows w.process;
          phases = put who (applied generation) w.phases;
        })
    marks :
        (who : Reloader) (generation : Option ℕ)
        → w.phases who ≡ applied generation
        → Step w (record w {
          process = mark_applied generation w.process;
          phases = put who idle w.phases;
        })
    -- an exception of the database between the two reads
    abandons :
        (who : Reloader) (generation : Option ℕ)
        → w.phases who ≡ reading generation
        → Step w (record w { phases = put who idle w.phases })

  pub data Reach (w : World) : World → Type 0 where
    here : Reach w w
    next : {v u : World} → Reach w v → Step v u → Reach w u

-- No reload runs.
abbrev pub Quiet : World → Type 0
Quiet w = (who : Reloader) → w.phases who ≡ idle

-- A process before its first reload.
abbrev pub Fresh : World → Type 0
Fresh w = (w.process.applied_generation ≡ none) × Quiet w
