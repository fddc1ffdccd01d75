-- ===== src/RuntimeConfig/Applied.antt =====
-- What an application of the overrides leaves in the environment.
use device_management.Prelude.Dict
use device_management.Prelude.Dict.{Dict, get-put}
use device_management.RuntimeConfig.Keys.{ConfigKeySpec}
use device_management.RuntimeConfig.{Py, Lib, to_env_str}
use device_management.RuntimeConfig.Process.{
  Fernet, OverrideRow, Process, apply_one, effective, apply_state, overrides_py, overrides_meta,
  reload_rows,
}
use device_management.Prelude.{
  ℕ, String, ◌≡◌, refl, sym, ap, ◌∙◌, subst, ◌≢◌, ◌⊎◌, inl, inr, true, false, Option, some, List,
  [], ◌∷◌, Memᴰ, if◌then◌else◌, Bool-cases, Each, ◌==◌, nat_eq, string_eq, pair_eq, ==_refl,
  list_eq,
}

-- no name twice
abbrev pub DistinctNames : List ConfigKeySpec → Type 0
DistinctNames [] = Unit
DistinctNames (s ∷ specs) =
    Each (λ (t : ConfigKeySpec). t.env_name ≢ s.env_name) specs × DistinctNames specs

module _ (lib : Lib) where
  apply_state-other :
      (specs : List ConfigKeySpec) (overrides : Dict String Py) (p : Process) (name : String)
      → Each (λ (t : ConfigKeySpec). t.env_name ≢ name) specs
      → Dict.get (apply_state lib specs overrides p).environ name ≡ Dict.get p.environ name
  unfolding apply_state apply_one
  apply_state-other [] overrides p name h = refl
  apply_state-other (s ∷ specs) overrides p name h =
      apply_state-other specs overrides
        (apply_one lib s (effective p.baseline overrides s.env_name) p) name
        (λ t m. h t (Memᴰ.tail m))
      ∙ get-put p.environ s.env_name name
          (to_env_str lib (effective p.baseline overrides s.env_name) s.value_type)
      ∙ other (Bool-cases (s.env_name == name))
    where
      other :
          ((s.env_name == name) ≡ true) ⊎ ((s.env_name == name) ≡ false)
          → (if s.env_name == name
              then some (to_env_str lib (effective p.baseline overrides s.env_name) s.value_type)
              else Dict.get p.environ name)
            ≡ Dict.get p.environ name
      other (inl e) = absurd (h s (Memᴰ.head refl) ((string_eq.beq_iff s.env_name name).0 e))
      other (inr e) = rw e

  pub apply_state-baseline :
      (specs : List ConfigKeySpec) (overrides : Dict String Py) (p : Process)
      → (apply_state lib specs overrides p).baseline ≡ p.baseline
  unfolding apply_state apply_one
  apply_state-baseline [] overrides p = refl
  apply_state-baseline (s ∷ specs) overrides p =
      apply_state-baseline specs overrides
        (apply_one lib s (effective p.baseline overrides s.env_name) p)

  pub apply_state-environ :
      (specs : List ConfigKeySpec) (overrides : Dict String Py) (p : Process) (spec : ConfigKeySpec)
      → DistinctNames specs
      → Memᴰ spec specs
      → Dict.get (apply_state lib specs overrides p).environ spec.env_name
        ≡ some (to_env_str lib (effective p.baseline overrides spec.env_name) spec.value_type)
  unfolding apply_state apply_one
  apply_state-environ [] overrides p spec d m = elim m [ ]
  apply_state-environ (s ∷ specs) overrides p spec d (Memᴰ.tail m) =
      apply_state-environ specs overrides
        (apply_one lib s (effective p.baseline overrides s.env_name) p) spec d.1 m
  apply_state-environ (s ∷ specs) overrides p spec d (Memᴰ.head e) =
      subst
        (λ (t : ConfigKeySpec).
          Dict.get (apply_state lib (s ∷ specs) overrides p).environ t.env_name
          ≡ some (to_env_str lib (effective p.baseline overrides t.env_name) t.value_type))
        (sym e) own
    where
      own :
          Dict.get
            (apply_state lib specs overrides
              (apply_one lib s (effective p.baseline overrides s.env_name) p)).environ
            s.env_name
          ≡ some (to_env_str lib (effective p.baseline overrides s.env_name) s.value_type)
      own =
          apply_state-other specs overrides
            (apply_one lib s (effective p.baseline overrides s.env_name) p) s.env_name d.0
          ∙ get-put p.environ s.env_name s.env_name
              (to_env_str lib (effective p.baseline overrides s.env_name) s.value_type)
          ∙ rw (==_refl s.env_name)

  -- the environment has, for each key, the override of the rows or else the value at startup
  abbrev pub Applied :
      Option Fernet → List ConfigKeySpec → Dict String OverrideRow → Process → Type 0
  Applied fernet specs rows p =
      Each
        (λ (spec : ConfigKeySpec).
          Dict.get p.environ spec.env_name
          ≡ some (
              to_env_str lib
                (effective p.baseline (overrides_py lib fernet specs rows) spec.env_name)
                spec.value_type))
        specs

  pub reload_rows-Applied :
      (fernet : Option Fernet) (specs : List ConfigKeySpec) (generation : Option ℕ)
      (rows : Dict String OverrideRow) (p : Process)
      → DistinctNames specs
      → Applied fernet specs rows (reload_rows lib fernet specs generation rows p)
  unfolding reload_rows
  reload_rows-Applied fernet specs generation rows p d spec m =
      let o = overrides_py lib fernet specs rows in
      let q = record p { overrides_meta = overrides_meta lib fernet specs rows } in
      apply_state-environ specs o q spec d m
      ∙ ap (λ b. some (to_env_str lib (effective b o spec.env_name) spec.value_type))
          (sym (apply_state-baseline specs o q))

  pub reload_rows-baseline :
      (fernet : Option Fernet) (specs : List ConfigKeySpec) (generation : Option ℕ)
      (rows : Dict String OverrideRow) (p : Process)
      → (reload_rows lib fernet specs generation rows p).baseline ≡ p.baseline
  unfolding reload_rows
  reload_rows-baseline fernet specs generation rows p =
      apply_state-baseline specs (overrides_py lib fernet specs rows)
        (record p { overrides_meta = overrides_meta lib fernet specs rows })
