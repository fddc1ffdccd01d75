-- ===== src/RuntimeConfig/TakesEffect.antt =====
-- From a request of an administrator to the environment of the process.
use device_management.Prelude.Dict
use device_management.Prelude.Dict.{Dict, get-put, get-pop, Distinct, put-Distinct}
use device_management.RuntimeConfig.Keys.{ConfigKeySpec}
use device_management.RuntimeConfig.{Py, nothing, Lib, to_env_str, coerce_input}
use device_management.RuntimeConfig.Process.{
  Fernet, OverrideRow, Process, effective, decode, editable, overrides_py, reload_rows,
  reload_overrides, encrypt_secret,
}
use device_management.RuntimeConfig.Admin.{
  find_spec, Request, updated, Server, stored_value, config_set, commit_set, set_override,
}
use device_management.RuntimeConfig.Applied.{
  DistinctNames, reload_rows-Applied, reload_rows-baseline,
}
use device_management.RuntimeConfig.Stored.{
  JsonLaws, FernetLaws, HasType, coerce_input-HasType, SecretsAreTexts, decode-stored_value,
}
use device_management.Prelude.{
  ℕ, suc, String, ◌≡◌, refl, sym, ap, ◌∙◌, subst, ◌≢◌, ◌⊎◌, inl, inr, true, false, not, Option,
  none, some, List, [], ◌∷◌, Memᴰ, arith, if◌then◌else◌, Bool-cases, Option-cases, Memᴰ→any, ◌==◌,
  nat_eq, string_eq, pair_eq, ==_refl, list_eq, Str,
}

module _ (lib : Lib) (fernet : Option Fernet) (specs : List ConfigKeySpec) where
  abbrev pub decoded_row : Option OverrideRow → Option Py
  decoded_row none = none
  decoded_row (some row) = decode lib fernet row

  pub overrides_py-get :
      (rows : Dict String OverrideRow) (key : String)
      → Distinct rows
      → Dict.get (overrides_py lib fernet specs rows) key
        ≡ (if editable specs key then decoded_row (Dict.get rows key) else none)
  unfolding overrides_py Dict.get
  overrides_py-get [] key d = ground arith
  overrides_py-get ((k, row) ∷ rows) key d =
      ground (arith, string_eq.beq_iff k key, overrides_py-get rows key d.1, d.0)

pub find_spec-member :
    (specs : List ConfigKeySpec) (spec : ConfigKeySpec)
    → DistinctNames specs
    → Memᴰ spec specs
    → find_spec specs spec.env_name ≡ some spec
find_spec-member [] spec d m = elim m [ ]
find_spec-member (s ∷ specs) spec d (Memᴰ.head e) = rw (e, ==_refl s.env_name)
find_spec-member (s ∷ specs) spec d (Memᴰ.tail m) =
    elim (Bool-cases (s.env_name == spec.env_name)) [
      | inl e ↦ absurd (d.0 spec m (sym ((string_eq.beq_iff s.env_name spec.env_name).0 e)))
      | inr e ↦ rw e (find_spec-member specs spec d.1 m)
    ]

stored_value-some :
    (lib : Lib) (f : Fernet) (specs : List ConfigKeySpec) (spec : ConfigKeySpec) (py : Py)
    → (stored : Str) × (stored_value lib (some f) specs spec py ≡ some stored)
unfolding stored_value encrypt_secret
stored_value-some lib f specs spec py =
    elim (Option-cases (stored_value lib (some f) specs spec py)) [
      | inl e ↦ absurd (ground (arith, e))
      | inr found ↦ found
    ]

pub put-get_at :
    (rows : Dict String OverrideRow) (k j : String) (row : OverrideRow)
    → j ≡ k
    → Dict.get (Dict.put rows k row) j ≡ some row
put-get_at rows k j row e = ground (arith, e, string_eq.beq_iff k j, get-put rows k j row)

module _ (lib : Lib) (fernet : Option Fernet) (specs : List ConfigKeySpec) where
  -- the value that the environment has after a reload, for a key with a row
  pub reload-environ :
      (generation : Option ℕ) (rows : Dict String OverrideRow) (p : Process) (spec : ConfigKeySpec)
      {py : Py}
      → DistinctNames specs
      → Distinct rows
      → Memᴰ spec specs
      → decoded_row lib fernet specs (Dict.get rows spec.env_name) ≡ some py
      → Dict.get (reload_rows lib fernet specs generation rows p).environ spec.env_name
        ≡ some (to_env_str lib py spec.value_type)
  unfolding effective
  reload-environ generation rows p spec d u m e =
      reload_rows-Applied lib fernet specs generation rows p d spec m
      ∙ rw (overrides_py-get lib fernet specs rows spec.env_name u) (
          rw
            (Memᴰ→any (λ (s : ConfigKeySpec). s.env_name == spec.env_name) specs spec m
              (==_refl spec.env_name))
            (rw e))

  -- a key whose rows are the same has the same value
  reload-same :
      (g h : Option ℕ) (rows rows' : Dict String OverrideRow) (p q : Process) (spec : ConfigKeySpec)
      → DistinctNames specs
      → Distinct rows
      → Distinct rows'
      → Memᴰ spec specs
      → Dict.get rows spec.env_name ≡ Dict.get rows' spec.env_name
      → (reload_rows lib fernet specs g rows p).baseline
        ≡ (reload_rows lib fernet specs h rows' q).baseline
      → Dict.get (reload_rows lib fernet specs g rows p).environ spec.env_name
        ≡ Dict.get (reload_rows lib fernet specs h rows' q).environ spec.env_name
  unfolding effective
  reload-same g h rows rows' p q spec d u u' m e b =
      reload_rows-Applied lib fernet specs g rows p d spec m
      ∙ rw
          (
            overrides_py-get lib fernet specs rows spec.env_name u,
            e,
            b,
            ← overrides_py-get lib fernet specs rows' spec.env_name u',
          )
          (sym (reload_rows-Applied lib fernet specs h rows' q d spec m))

module _ (lib : Lib) (laws : JsonLaws lib) (f : Fernet) (flaws : FernetLaws f)
    (specs : List ConfigKeySpec) where
  -- the row that is written
  abbrev pub row_of : Request → ConfigKeySpec → Str → OverrideRow
  row_of r spec stored = record {
    value = stored;
    value_type = spec.value_type;
    is_secret = spec.sensitive;
    updated_by = r.actor_email;
    updated_at = r.now;
  }

  -- what an accepted request comes down to
  pub config_set-commits :
      (r : Request) (s : Server) (spec : ConfigKeySpec) (value py : Py) (stored : Str) (g : ℕ)
      → find_spec specs r.key ≡ some spec
      → r.editing_enabled ≡ true
      → r.csrf_valid ≡ true
      → r.fails ≡ false
      → r.body ≡ some value
      → coerce_input lib spec value ≡ some py
      → stored_value lib (some f) specs spec py ≡ some stored
      → s.tables.generation ≡ some g
      → config_set lib (some f) specs r s
        ≡ commit_set lib (some f) specs r spec py stored (some (suc g)) s
  unfolding config_set
  config_set-commits r s spec value py stored g found editing csrf works body accepted st gen =
      rw (editing, csrf, found, body, accepted, st, works, gen)

  -- An administrator's request to set a key to a value that the key accepts, on a server that can
  -- encrypt and whose transaction succeeds, is answered with the next generation. The tables then
  -- have that generation, a row of the key that every process reads as the value, and for each other
  -- key the row they had. Where the reload that follows works, the environment of the process has
  -- the value of the key and, for each other key, what a reload before the request would have set;
  -- where it does not, the request is answered all the same and the environment is as it was.
  pub config_set-takes_effect :
      (r : Request) (s : Server) {spec other : ConfigKeySpec} {value py : Py} {g : ℕ}
      → DistinctNames specs
      → SecretsAreTexts specs
      → Memᴰ spec specs
      → Memᴰ other specs
      → spec.env_name ≡ r.key
      → other.env_name ≢ r.key
      → r.editing_enabled ≡ true
      → r.csrf_valid ≡ true
      → r.fails ≡ false
      → r.body ≡ some value
      → coerce_input lib spec value ≡ some py
      → py ≢ nothing
      → s.tables.generation ≡ some g
      → Distinct s.tables.overrides
      → let (after, response) = config_set lib (some f) specs r s in
        (response ≡ updated (not spec.hot_reloadable) (suc g))
        × (after.tables.generation ≡ some (suc g))
        × (decoded_row lib (some f) specs (Dict.get after.tables.overrides r.key) ≡ some py)
        × (Dict.get after.tables.overrides other.env_name
            ≡ Dict.get s.tables.overrides other.env_name)
        × (Dict.get after.process.environ r.key ≡ (
            if r.reload_works
            then some (to_env_str lib py spec.value_type)
            else Dict.get s.process.environ r.key))
        × (Dict.get after.process.environ other.env_name ≡ (
            if r.reload_works
            then Dict.get
                (reload_overrides lib (some f) specs s.tables s.process).environ
                other.env_name
            else Dict.get s.process.environ other.env_name))
  unfolding set_override reload_overrides
  config_set-takes_effect r s {spec} {other} {value} {py} {g} d texts m mo name apart editing csrf
        works body accepted proper gen u =
      rw
        (config_set-commits r s spec value py stored.0 g
          (rw (← name) (find_spec-member specs spec d m)) editing csrf works body accepted stored.1
          gen)
        (elim (Bool-cases r.reload_works) [
          | inl e ↦ rw e (refl, refl, row, kept, here, there)
          | inr e ↦ rw e (refl, refl, row, kept, refl, refl)
        ])
    where
      stored : (t : Str) × (stored_value lib (some f) specs spec py ≡ some t)
      stored = stored_value-some lib f specs spec py

      rows : Dict String OverrideRow
      rows = Dict.put s.tables.overrides r.key (row_of r spec stored.0)

      typed : (py ≡ nothing) ⊎ HasType spec.value_type py → HasType spec.value_type py
      typed (inl e) = absurd (proper e)
      typed (inr h) = h

      written : decoded_row lib (some f) specs (Dict.get rows spec.env_name) ≡ some py
      written =
          ap (decoded_row lib (some f) specs)
            (put-get_at s.tables.overrides r.key spec.env_name (row_of r spec stored.0) name)
          ∙ decode-stored_value lib laws f flaws specs spec py (row_of r spec stored.0)
              (texts spec m) (typed (coerce_input-HasType lib spec value accepted)) stored.1 refl
              refl refl

      row : decoded_row lib (some f) specs (Dict.get rows r.key) ≡ some py
      row =
          subst (λ (k : String). decoded_row lib (some f) specs (Dict.get rows k) ≡ some py) name
            written

      unique : Distinct rows
      unique = put-Distinct s.tables.overrides r.key (row_of r spec stored.0) u

      here :
          Dict.get (reload_rows lib (some f) specs (some (suc g)) rows s.process).environ r.key
          ≡ some (to_env_str lib py spec.value_type)
      here =
          subst
            (λ (k : String).
              Dict.get (reload_rows lib (some f) specs (some (suc g)) rows s.process).environ k
              ≡ some (to_env_str lib py spec.value_type))
            name
            (reload-environ lib (some f) specs (some (suc g)) rows s.process spec d unique m
              written)

      kept : Dict.get rows other.env_name ≡ Dict.get s.tables.overrides other.env_name
      kept = ground (
        arith,
        apart,
        string_eq.beq_iff r.key other.env_name,
        get-put s.tables.overrides r.key other.env_name (row_of r spec stored.0),
      )

      there :
          Dict.get
            (reload_rows lib (some f) specs (some (suc g)) rows s.process).environ
            other.env_name
          ≡ Dict.get
              (reload_rows lib
                (some f)
                specs
                s.tables.generation
                s.tables.overrides
                s.process).environ
              other.env_name
      there =
          reload-same lib (some f) specs (some (suc g)) s.tables.generation rows s.tables.overrides
            s.process s.process other d unique u mo kept
            (reload_rows-baseline lib (some f) specs (some (suc g)) rows s.process
              ∙ sym (
                  reload_rows-baseline lib (some f) specs s.tables.generation s.tables.overrides
                    s.process))
