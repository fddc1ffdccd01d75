-- ===== src/RuntimeConfig/Nulls.antt =====
-- What the handler makes of a value of null.
use device_management.Prelude.Dict
use device_management.Prelude.Dict.{Dict, get-put, Distinct, put-Distinct}
use device_management.Prelude.Text.{int_of}
use device_management.RuntimeConfig.Keys.{ConfigKeySpec, int_type}
use device_management.RuntimeConfig.{
  nothing, Lib, to_env_str, coerce, coerce_input, to_stored_value, check_input,
}
use device_management.RuntimeConfig.Process.{
  Fernet, OverrideRow, effective, decode, editable, overrides_py, reload_rows, reload_overrides,
}
use device_management.RuntimeConfig.Admin.{
  find_spec, Request, updated, Server, stored_value, config_set, set_override,
}
use device_management.RuntimeConfig.Applied.{
  DistinctNames, reload_rows-Applied, reload_rows-baseline,
}
use device_management.RuntimeConfig.Stored.{JsonLaws, FernetLaws}
use device_management.RuntimeConfig.TakesEffect.{
  decoded_row, overrides_py-get, find_spec-member, put-get_at, row_of, config_set-commits,
}
use device_management.Prelude.{
  ℕ, suc, String, ◌≡◌, refl, sym, ap, ◌∙◌, true, not, Option, none, some, List, [], Memᴰ, arith,
  if◌then◌else◌, or_else, Bool-cases, inl, inr, false, nat_eq, string_eq, pair_eq, list_eq,
}

coerce_input-null :
    (lib : Lib) (spec : ConfigKeySpec)
    → spec.value_type ≡ int_type
    → coerce_input lib spec nothing ≡ some nothing
unfolding coerce_input coerce check_input
coerce_input-null lib spec e = rw e

stored_value-null :
    (lib : Lib) (fernet : Option Fernet) (specs : List ConfigKeySpec) (spec : ConfigKeySpec)
    → spec.value_type ≡ int_type
    → spec.sensitive ≡ false
    → stored_value lib fernet specs spec nothing ≡ some []
unfolding stored_value to_stored_value to_env_str
stored_value-null lib fernet specs spec e n = rw (n, e)

decode-empty :
    (lib : Lib) (fernet : Option Fernet) (row : OverrideRow)
    → row.value ≡ []
    → row.value_type ≡ int_type
    → row.is_secret ≡ false
    → decode lib fernet row ≡ none
unfolding decode coerce int_of
decode-empty lib fernet row v t n = rw (v, t, n)

module _ (lib : Lib) (laws : JsonLaws lib) (f : Fernet) (flaws : FernetLaws f)
    (specs : List ConfigKeySpec) where
  -- A request that sets a whole number to null is answered as a success, with the next generation
  -- and a stored row, and no process can read that row: a reload that works leaves the environment
  -- with the value at startup, and one that does not leaves it as it was.
  pub config_set-null_number :
      (r : Request) (s : Server) {spec : ConfigKeySpec} {g : ℕ}
      → DistinctNames specs
      → Memᴰ spec specs
      → spec.env_name ≡ r.key
      → spec.value_type ≡ int_type
      → spec.sensitive ≡ false
      → r.editing_enabled ≡ true
      → r.csrf_valid ≡ true
      → r.fails ≡ false
      → r.body ≡ some nothing
      → s.tables.generation ≡ some g
      → Distinct s.tables.overrides
      → let (after, response) = config_set lib (some f) specs r s in
        (response ≡ updated (not spec.hot_reloadable) (suc g))
        × ((Dict.get after.tables.overrides spec.env_name
              ≡ some (row_of lib laws f flaws specs r spec []))
            × (Dict.get after.process.environ spec.env_name ≡ (
                if r.reload_works
                then some (
                    to_env_str lib
                      (or_else (Dict.get s.process.baseline spec.env_name) nothing)
                      spec.value_type)
                else Dict.get s.process.environ spec.env_name)))
  unfolding set_override reload_overrides effective
  config_set-null_number r s {spec} {g} d m name number plain editing csrf works body gen u =
      rw
        (config_set-commits lib laws f flaws specs r s spec nothing nothing [] g
          (ap (find_spec specs) (sym name) ∙ find_spec-member specs spec d m) editing csrf works
          body (coerce_input-null lib spec number)
          (stored_value-null lib (some f) specs spec number plain) gen)
        (elim (Bool-cases r.reload_works) [
          | inl e ↦ rw e (refl, (written, unread))
          | inr e ↦ rw e (refl, (written, refl))
        ])
    where
      row : OverrideRow
      row = row_of lib laws f flaws specs r spec []

      rows : Dict String OverrideRow
      rows = Dict.put s.tables.overrides r.key row

      written : Dict.get rows spec.env_name ≡ some row
      written = put-get_at s.tables.overrides r.key spec.env_name row name

      skipped : Dict.get (overrides_py lib (some f) specs rows) spec.env_name ≡ none
      skipped =
          overrides_py-get lib (some f) specs rows spec.env_name
            (put-Distinct s.tables.overrides r.key row u)
          ∙ ap
              (λ (o : Option OverrideRow).
                if editable specs spec.env_name then decoded_row lib (some f) specs o else none)
              written
          ∙ ground (arith, decode-empty lib (some f) row refl number plain)

      unread :
          Dict.get
            (reload_rows lib (some f) specs (some (suc g)) rows s.process).environ
            spec.env_name
          ≡ some (
              to_env_str lib
                (or_else (Dict.get s.process.baseline spec.env_name) nothing)
                spec.value_type)
      unread =
          reload_rows-Applied lib (some f) specs (some (suc g)) rows s.process d spec m
          ∙ rw (skipped, reload_rows-baseline lib (some f) specs (some (suc g)) rows s.process)
