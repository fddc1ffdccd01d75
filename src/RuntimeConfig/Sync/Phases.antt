-- ===== src/RuntimeConfig/Sync/Phases.antt =====
-- What holds of a reload at each of its phases.
use device_management.Prelude.Dict.{Dict}
use device_management.RuntimeConfig.Keys.{ConfigKeySpec}
use device_management.RuntimeConfig.{Lib, Py}
use device_management.RuntimeConfig.Process.{
  Fernet, OverrideRow, Tables, Process, apply_state, apply_one, overrides_py, apply_rows,
  reload_rows, newer_generation,
}
use device_management.RuntimeConfig.Admin.{bump_generation}
use device_management.RuntimeConfig.Applied.{DistinctNames, Applied, reload_rows-Applied}
use device_management.RuntimeConfig.Sync.{Phase, idle, reading, loaded, applied}
use device_management.RuntimeConfig.Sync.Order.{NotAhead, Reached, Reached-bump, behind_read}
use device_management.Prelude.{
  ℕ, String, ◌≡◌, refl, ap, Option, none, some, List, [], ◌∷◌, nat_eq, string_eq, pair_eq, list_eq,
}

module _ (lib : Lib) (fernet : Option Fernet) (specs : List ConfigKeySpec) where
  apply_state-generation :
      (ss : List ConfigKeySpec) (o : Dict String Py) (p : Process)
      → (apply_state lib ss o p).applied_generation ≡ p.applied_generation
  unfolding apply_state apply_one
  apply_state-generation [] o p = refl
  apply_state-generation (s ∷ ss) o p = apply_state-generation ss o _

  pub apply_rows-generation :
      (rows : Dict String OverrideRow) (p : Process)
      → (apply_rows lib fernet specs rows p).applied_generation ≡ p.applied_generation
  unfolding apply_rows
  apply_rows-generation rows p = apply_state-generation specs (overrides_py lib fernet specs rows) _

  pub reload_rows-generation :
      (generation : Option ℕ) (rows : Dict String OverrideRow) (p : Process)
      → (reload_rows lib fernet specs generation rows p).applied_generation
        ≡ newer_generation generation p.applied_generation
  unfolding reload_rows
  reload_rows-generation generation rows p =
      ap (newer_generation generation) (apply_rows-generation rows p)

  pub apply_rows-Applied :
      (rows : Dict String OverrideRow) (p : Process)
      → DistinctNames specs
      → Applied lib fernet specs rows (apply_rows lib fernet specs rows p)
  unfolding reload_rows
  apply_rows-Applied rows p d = reload_rows-Applied lib fernet specs none rows p d

  -- what holds of a reload that is under way, while no other is
  abbrev pub PhaseOk : Tables → Process → Phase → Type 0
  PhaseOk t p idle = Unit
  PhaseOk t p (reading g) = NotAhead p.applied_generation g × Reached g t.generation
  PhaseOk t p (loaded g rows) =
      NotAhead p.applied_generation g
      × Reached g t.generation
      × ((k : ℕ) → t.generation ≡ some k → g ≡ some k → rows ≡ t.overrides)
  PhaseOk t p (applied g) =
      NotAhead p.applied_generation g
      × Reached g t.generation
      × ((k : ℕ) → t.generation ≡ some k → g ≡ some k → Applied lib fernet specs t.overrides p)

  pub PhaseOk-commit :
      (t : Tables) (p : Process) (rows : Dict String OverrideRow) (phase : Phase) {g : ℕ}
      → bump_generation t.generation ≡ some g
      → PhaseOk t p phase
      → PhaseOk (record { generation = some g; overrides = rows }) p phase
  PhaseOk-commit t p rows idle e h = tt
  PhaseOk-commit t p rows (reading r) e h = (h.0, Reached-bump r t.generation e h.1)
  PhaseOk-commit t p rows (loaded r old) e h = (
    h.0,
    Reached-bump r t.generation e h.1,
    λ k q s. absurd (behind_read r t.generation e h.1 q s),
  )
  PhaseOk-commit t p rows (applied r) e h = (
    h.0,
    Reached-bump r t.generation e h.1,
    λ k q s. absurd (behind_read r t.generation e h.1 q s),
  )
