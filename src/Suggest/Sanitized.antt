-- ===== src/Suggest/Sanitized.antt =====
-- What the filter lets through into the fields of addresses.
use device_management.Prelude.Dict
use device_management.Prelude.Dict.{Dict}
use device_management.Suggest.{
  Value, text, other, is_allowed, is_url_field, is_safe_url, safe_text, safe_url_value,
  cleaned_value, sanitize_suggestion,
}
use device_management.Prelude.{
  ◌≡◌, refl, sym, ap, ◌∙◌, ◌⊎◌, inl, inr, Bool, true, false, Option, none, some, [], ◌∷◌,
  if◌then◌else◌, Bool-cases, none-ne-some, ◌==◌, nat_eq, string_eq, pair_eq, list_eq, list_beq_iff,
  Str, strip,
}

-- nothing, or an address of http(s) or an image in the text itself
abbrev pub IsHarmless : Str → Type 0
IsHarmless v = (v ≡ []) ⊎ (is_safe_url v ≡ true)

safe_text-IsHarmless : (v : Str) → IsHarmless (safe_text v)
safe_text-IsHarmless v = elim (Bool-cases (is_safe_url v)) [
  | inl e ↦ inr (rw (e, e))
  | inr e ↦ inl (rw e)
]

safe_url_value-IsHarmless : {P : Type 0} (v : Value P) → IsHarmless (safe_url_value v)
unfolding safe_url_value
safe_url_value-IsHarmless (text s) = safe_text-IsHarmless (strip s)
safe_url_value-IsHarmless (other p) = inl refl

-- what the filter makes of a field
abbrev pub filtered : {P : Type 0} → Str → Option (Value P) → Option (Value P)
filtered k none = none
filtered k (some v) = if is_allowed k then some (cleaned_value k v) else none

pub sanitize_suggestion-get :
    {P : Type 0} (fields : Dict Str (Value P)) (k : Str)
    → Dict.Distinct fields
    → Dict.get (sanitize_suggestion fields) k ≡ filtered k (Dict.get fields k)
unfolding sanitize_suggestion Dict.get
sanitize_suggestion-get [] k d = refl
sanitize_suggestion-get ((j, v) ∷ fields) k d =
    here (is_allowed j) refl (Bool-cases (j == k)) (sanitize_suggestion-get fields k d.1)
  where
    same : (j == k) ≡ true → j ≡ k
    same = (list_beq_iff j k).0

    here :
        (a : Bool)
        → is_allowed j ≡ a
        → ((j == k) ≡ true) ⊎ ((j == k) ≡ false)
        → Dict.get (sanitize_suggestion fields) k ≡ filtered k (Dict.get fields k)
        → Dict.get
            (if a
              then (j, cleaned_value j v) ∷ sanitize_suggestion fields
              else sanitize_suggestion fields)
            k
          ≡ filtered k (if j == k then some v else Dict.get fields k)
    here true h (inl e) ih = rw e (sym (ap (λ x. filtered x (some v)) (sym (same e)) ∙ rw h))
    here true h (inr e) ih = rw (e, ih)
    here false h (inl e) ih = rw e (
        ih
        ∙ ap (filtered k) (ap (Dict.get fields) (sym (same e)) ∙ d.0)
        ∙ sym (ap (λ x. filtered x (some v)) (sym (same e)) ∙ rw h))
    here false h (inr e) ih = rw (e, ih)

-- What the filter leaves in a field of addresses is nothing, an address of http(s) or an image in
-- the text, whatever the model answered there; and the field is one that the catalogue knows.
pub sanitize_suggestion-IsHarmless :
    {P : Type 0} (fields : Dict Str (Value P)) (k : Str) {v : Value P}
    → Dict.Distinct fields
    → is_url_field k ≡ true
    → Dict.get (sanitize_suggestion fields) k ≡ some v
    → (s : Str) × (v ≡ text s) × (IsHarmless s × (is_allowed k ≡ true))
sanitize_suggestion-IsHarmless {P} fields k {v} d u h =
    kept (Dict.get fields k) (sym (sanitize_suggestion-get fields k d) ∙ h)
  where
    passed : (w : Value P) → cleaned_value k w ≡ text (safe_url_value w)
    passed w = rw u

    kept :
        (o : Option (Value P))
        → filtered k o ≡ some v
        → (s : Str) × (v ≡ text s) × (IsHarmless s × (is_allowed k ≡ true))
    kept none e = absurd (none-ne-some e)
    kept (some w) e = elim (Bool-cases (is_allowed k)) [
      | inl a ↦
          (safe_url_value w, value_same (rw a at e) ∙ passed w, (safe_url_value-IsHarmless w, a))
      | inr a ↦ absurd (none-ne-some (rw a at e))
    ]
      where
        value_same : some (cleaned_value k w) ≡ some v → v ≡ cleaned_value k w
        value_same q = cc
