-- ===== src/RuntimeConfig/Stored.antt =====
-- A value that is stored in `config_overrides` and read back.
use device_management.Prelude.Numerals.{int_of-str_int}
use device_management.RuntimeConfig.Keys.{
  ValueType, bool_type, int_type, str_type, list_type, ConfigKeySpec,
}
use device_management.RuntimeConfig.{
  Py, nothing, bool, int, text, items, Lib, parse_text, str_of, coerce, coerce_value, to_env_str,
  to_stored_value, check_input, coerce_input, as_int,
}
use device_management.RuntimeConfig.Process.{
  Fernet, OverrideRow, encrypt_secret, decrypt_secret, decode, enc_prefix,
}
use device_management.RuntimeConfig.Admin.{stored_value}
use device_management.Prelude.{
  ◌≡◌, refl, ap, subst, ◌⊎◌, inl, inr, Bool, true, false, some, List, ◌∷◌, ◌++◌, arith, Bool-cases,
  Option-cases, none-ne-some, Each, nat_eq, string_eq, pair_eq, ℤ, list_eq, Str, strip,
}

-- `json.loads` inverts `json.dumps` on a list of texts, whose text is in brackets.
pub record JsonLaws (lib : Lib) : Type 0 where
  pub body : List Str → Str
  pub shape : (xs : List Str) → strip (lib.dumps xs) ≡ b'[' ∷ body xs
  pub loads-dumps : (xs : List Str) → lib.loads (b'[' ∷ body xs) ≡ some xs

pub record FernetLaws (fernet : Fernet) : Type 0 where
  pub decrypt-encrypt : (s : Str) → fernet.decrypt (fernet.encrypt s) ≡ some s

-- a value of a type; None is of no type
pub data HasType : ValueType → Py → Type 0 where
  bool_value : (b : Bool) → HasType bool_type (bool b)
  int_value : (z : ℤ) → HasType int_type (int z)
  str_value : (s : Str) → HasType str_type (text s)
  list_value : (xs : List Str) → HasType list_type (items xs)

some_inj : {a b : Py} → some a ≡ some b → a ≡ b
some_inj e = cc

module _ (lib : Lib) where
  typed :
      (t : ValueType) (value : Py) {py : Py}
      → coerce_value lib value t ≡ some py
      → (py ≡ nothing) ⊎ HasType t py
  typed bool_type value h = inr (subst (HasType bool_type) (some_inj h) (bool_value _))
  typed int_type value h = elim (Option-cases (as_int value)) [
    | inl e ↦ absurd (none-ne-some (rw e at h))
    | inr (z, e) ↦ inr (subst (HasType int_type) (some_inj (rw e at h)) (int_value z))
  ]
  typed str_type value h = inr (subst (HasType str_type) (some_inj h) (str_value _))
  typed list_type value h = inr (subst (HasType list_type) (some_inj h) (list_value _))

  coerce-HasType :
      (t : ValueType) (value : Py) {py : Py}
      → coerce lib value t ≡ some py
      → (py ≡ nothing) ⊎ HasType t py
  unfolding coerce
  coerce-HasType t nothing h = inl (ground (arith, h))
  coerce-HasType t (bool b) h = typed t (bool b) h
  coerce-HasType t (int z) h = typed t (int z) h
  coerce-HasType t (text s) h = typed t (text s) h
  coerce-HasType t (items xs) h = typed t (items xs) h

module _ (lib : Lib) (laws : JsonLaws lib) where
  parse_text-dumps : (xs : List Str) → parse_text lib (strip (lib.dumps xs)) ≡ xs
  parse_text-dumps xs = rw (laws.shape xs, laws.loads-dumps xs)

  -- what `_coerce` makes of the text that `_to_env_str` makes of a value
  pub coerce-to_env_str :
      (t : ValueType) (py : Py) → HasType t py → coerce lib (text (to_env_str lib py t)) t ≡ some py
  unfolding coerce to_env_str
  coerce-to_env_str _ _ (bool_value true) = refl
  coerce-to_env_str _ _ (bool_value false) = refl
  coerce-to_env_str _ _ (int_value z) = rw (int_of-str_int z)
  coerce-to_env_str _ _ (str_value s) = refl
  coerce-to_env_str _ _ (list_value xs) = ap (λ l. some (items l)) (parse_text-dumps xs)

  -- what is stored in clear
  coerce-to_stored_value :
      (spec : ConfigKeySpec) (t : ValueType) (py : Py)
      → HasType t py
      → spec.value_type ≡ t
      → coerce lib (text (to_stored_value lib spec py)) t ≡ some py
  unfolding to_stored_value
  coerce-to_stored_value spec _ _ (bool_value b) e =
      rw e (coerce-to_env_str bool_type (bool b) (bool_value b))
  coerce-to_stored_value spec _ _ (int_value z) e =
      rw e (coerce-to_env_str int_type (int z) (int_value z))
  coerce-to_stored_value spec _ _ (str_value s) e =
      rw e (coerce-to_env_str str_type (text s) (str_value s))
  coerce-to_stored_value spec _ _ (list_value xs) e =
      rw e (coerce-to_env_str list_type (items xs) (list_value xs))

check_input-HasType :
    (spec : ConfigKeySpec) (t : ValueType) {value : Py} {py : Py}
    → HasType t value
    → check_input spec value ≡ some py
    → HasType t py
unfolding check_input
check_input-HasType spec _ (bool_value b) h = subst (HasType bool_type) (some_inj h) (bool_value b)
check_input-HasType spec _ (str_value s) h = subst (HasType str_type) (some_inj h) (str_value s)
check_input-HasType spec _ (list_value xs) h = subst (HasType list_type) (some_inj h) (list_value _)
check_input-HasType spec _ (int_value z) h =
    subst (HasType int_type) (ground (arith, h)) (int_value z)

check_input-nothing :
    (spec : ConfigKeySpec) {py : Py} → check_input spec nothing ≡ some py → py ≡ nothing
unfolding check_input
check_input-nothing spec h = ground (arith, h)

-- An accepted value is None or of the key's type.
pub coerce_input-HasType :
    (lib : Lib) (spec : ConfigKeySpec) (value : Py) {py : Py}
    → coerce_input lib spec value ≡ some py
    → (py ≡ nothing) ⊎ HasType spec.value_type py
unfolding coerce_input
coerce_input-HasType lib spec value {py = py} h =
    elim (Option-cases (coerce lib value spec.value_type)) [
      | inl e ↦ absurd (none-ne-some (rw e at h))
      | inr (v, e) ↦ accepted v (coerce-HasType lib spec.value_type value e) (rw e at h)
    ]
  where
    accepted :
        (v : Py)
        → (v ≡ nothing) ⊎ HasType spec.value_type v
        → check_input spec v ≡ some py
        → (py ≡ nothing) ⊎ HasType spec.value_type py
    accepted v (inl e) k = inl (check_input-nothing spec (rw e at k))
    accepted v (inr t) k = inr (check_input-HasType spec spec.value_type t k)

-- every secret is a text
abbrev pub SecretsAreTexts : List ConfigKeySpec → Type 0
SecretsAreTexts specs =
    Each (λ (s : ConfigKeySpec). s.sensitive ≡ true → s.value_type ≡ str_type) specs

pub decrypt-encrypt_secret :
    (f : Fernet) (laws : FernetLaws f) (s : Str) {stored : Str}
    → encrypt_secret (some f) s ≡ some stored
    → decrypt_secret (some f) stored ≡ some s
unfolding encrypt_secret decrypt_secret
decrypt-encrypt_secret f laws s {stored} h = rw (← stored_text) (laws.decrypt-encrypt s)
  where
    stored_text : enc_prefix ++ f.encrypt s ≡ stored
    stored_text = cc

module _ (lib : Lib) (laws : JsonLaws lib) (f : Fernet) (flaws : FernetLaws f) where
  secret-coerces :
      (spec : ConfigKeySpec) (t : ValueType) (py : Py)
      → HasType t py
      → t ≡ str_type
      → coerce lib (text (str_of lib py)) t ≡ some py
  unfolding coerce
  secret-coerces spec _ _ (bool_value b) e = absurd (cc)
  secret-coerces spec _ _ (int_value z) e = absurd (cc)
  secret-coerces spec _ _ (str_value s) e = refl
  secret-coerces spec _ _ (list_value xs) e = absurd (cc)

  -- A row that `config_set` writes is decoded as the value that it was written for.
  pub decode-stored_value :
      (specs : List ConfigKeySpec) (spec : ConfigKeySpec) (py : Py) {stored : Str}
      (row : OverrideRow)
      → (spec.sensitive ≡ true → spec.value_type ≡ str_type)
      → HasType spec.value_type py
      → stored_value lib (some f) specs spec py ≡ some stored
      → row.value ≡ stored
      → row.value_type ≡ spec.value_type
      → row.is_secret ≡ spec.sensitive
      → decode lib (some f) row ≡ some py
  unfolding stored_value decode to_stored_value
  decode-stored_value specs spec py {stored} row texts h st v t q =
      elim (Bool-cases spec.sensitive) [
        | inl e ↦
            rw (v, t, q, e)
              (rw (decrypt-encrypt_secret f flaws (str_of lib py) (rw e at st))
                (secret-coerces spec spec.value_type py h (texts e)))
        | inr e ↦
            rw (v, t, q, e)
              (rw (← stored_clear (rw e at st))
                (coerce-to_stored_value lib laws spec spec.value_type py h refl))
      ]
    where
      stored_clear :
          some (to_stored_value lib spec py) ≡ some stored → to_stored_value lib spec py ≡ stored
      stored_clear e = cc
