-- ===== src/Flags/Precedence.antt =====
-- The layers of the `features` of `/config`: template, forced flags, cohorts' overrides.
use device_management.Prelude.Dict
use device_management.Prelude.Dict.{Dict, get-put, Distinct, put-Distinct}
use device_management.Flags.{
  Flag, Override, Row, applies, conjoin, fold_rows, override_rows, resolve_feature_flags, forced,
  fold_forced, resolve_forced_flags, update, features_resolved,
}
use device_management.Prelude.{
  ℕ, String, ◌≡◌, refl, sym, ap, ◌∙◌, subst, ◌⊎◌, inl, inr, Bool, true, false, ◌&&◌, Option, none,
  some, List, [], ◌∷◌, Memᴰ, arith, Bool-cases, Option-cases, or_else, none-ne-some, false-ne-true,
  ◌==◌, nat_eq, string_eq, pair_eq,
}

-- an earlier answer, or else a later one
abbrev pub first_of : Option Bool → Option Bool → Option Bool
first_of none later = later
first_of (some b) later = some b

pub update-get :
    (d e : Dict String Bool) (name : String)
    → Distinct e
    → Dict.get (update d e) name ≡ first_of (Dict.get e name) (Dict.get d name)
unfolding update Dict.get
update-get d [] name h = refl
update-get d ((k, v) ∷ e) name (h, hs) =
    update-get (Dict.put d k v) e name hs
    ∙ ground
        (arith, h, get-put d k name v, string_eq.beq_iff k name, Bool-cases (k == name), missing)
  where
    missing : k ≡ name → Dict.get e name ≡ none
    missing q = subst (λ n. Dict.get e n ≡ none) q h

pub fold_rows-Distinct :
    (v : String) (d : Dict String Bool) (rs : List Row) → Distinct d → Distinct (fold_rows v d rs)
unfolding fold_rows
fold_rows-Distinct v d [] h = h
fold_rows-Distinct v d (r ∷ rs) h = elim (Bool-cases (applies v r)) [
  | inl e ↦ rw e (
      fold_rows-Distinct v (conjoin d r) rs
        (put-Distinct d r.name (or_else (Dict.get d r.name) true && r.value) h))
  | inr e ↦ rw e (fold_rows-Distinct v d rs h)
]

pub fold_forced-Distinct :
    (v slug : String) (d : Dict String Bool) (fs : List Flag)
    → Distinct d
    → Distinct (fold_forced v slug d fs)
unfolding fold_forced
fold_forced-Distinct v slug d [] h = h
fold_forced-Distinct v slug d (f ∷ fs) h = elim (Option-cases (forced v slug f)) [
  | inl e ↦ rw e (fold_forced-Distinct v slug d fs h)
  | inr (b, e) ↦
      rw e (fold_forced-Distinct v slug (Dict.put d f.name b) fs (put-Distinct d f.name b h))
]

-- What `/config` says of a flag is what the cohorts' overrides make of it, or else, when they say
-- nothing, the value that the catalogue forces, or else what the template says.
pub features_resolved_layers :
    (toggles : Dict String Bool) (cohorts : List ℕ) (v slug : String) (flags : List Flag)
    (overrides : List Override) (name : String)
    → Dict.get (features_resolved toggles cohorts v slug flags overrides) name
      ≡ first_of
          (Dict.get (resolve_feature_flags cohorts v slug flags overrides) name)
          (first_of (Dict.get (resolve_forced_flags v slug flags) name) (Dict.get toggles name))
unfolding features_resolved resolve_feature_flags resolve_forced_flags
features_resolved_layers toggles cohorts v slug flags overrides name =
    let forced_values = fold_forced v slug [] flags in
    update-get (update toggles forced_values)
      (fold_rows v [] (override_rows cohorts slug flags overrides)) name
      (fold_rows-Distinct v [] (override_rows cohorts slug flags overrides) tt)
    ∙ ap (first_of (Dict.get (fold_rows v [] (override_rows cohorts slug flags overrides)) name))
        (update-get toggles forced_values name (fold_forced-Distinct v slug [] flags tt))

-- a flag of a name that the catalogue forces to a value
abbrev pub Forces : String → String → String → Bool → Flag → Type 0
Forces v slug name b f = (f.name ≡ name) × (forced v slug f ≡ some b)

fold_forced_sound :
    (v slug name : String) (d : Dict String Bool) (fs : List Flag) (b : Bool)
    → Dict.get (fold_forced v slug d fs) name ≡ some b
    → (Dict.get d name ≡ some b) ⊎ ((f : Flag) × Memᴰ f fs × Forces v slug name b f)
unfolding fold_forced
fold_forced_sound v slug name d [] b h = inl h
fold_forced_sound v slug name d (f ∷ fs) b h = elim (Option-cases (forced v slug f)) [
  | inl e ↦ keep (fold_forced_sound v slug name d fs b (rw e at h))
  | inr (c, e) ↦ here c e (fold_forced_sound v slug name (Dict.put d f.name c) fs b (rw e at h))
]
  where
    keep :
        (Dict.get d name ≡ some b) ⊎ ((g : Flag) × Memᴰ g fs × Forces v slug name b g)
        → (Dict.get d name ≡ some b) ⊎ ((g : Flag) × Memᴰ g (f ∷ fs) × Forces v slug name b g)
    keep (inl q) = inl q
    keep (inr (g, m, q)) = inr (g, Memᴰ.tail m, q)

    here :
        (c : Bool)
        → forced v slug f ≡ some c
        → (Dict.get (Dict.put d f.name c) name ≡ some b)
          ⊎ ((g : Flag) × Memᴰ g fs × Forces v slug name b g)
        → (Dict.get d name ≡ some b) ⊎ ((g : Flag) × Memᴰ g (f ∷ fs) × Forces v slug name b g)
    here c e (inr (g, m, q)) = inr (g, Memᴰ.tail m, q)
    here c e (inl q) = elim (Bool-cases (f.name == name)) [
      | inl s ↦ inr (
        f,
        Memᴰ.head refl,
        ((string_eq.beq_iff f.name name).0 s, ground (arith, e, q, s, get-put d f.name name c)),
      )
      | inr s ↦ inl (ground (arith, q, s, get-put d f.name name c))
    ]

fold_forced_complete :
    (v slug name : String) (d : Dict String Bool) (fs : List Flag)
    → Dict.get (fold_forced v slug d fs) name ≡ none
    → (Dict.get d name ≡ none) × ((f : Flag) → Memᴰ f fs → (b : Bool) → ¬ (Forces v slug name b f))
unfolding fold_forced
fold_forced_complete v slug name d [] h = (h, λ f m. elim m [ ])
fold_forced_complete v slug name d (f ∷ fs) h = elim (Option-cases (forced v slug f)) [
  | inl e ↦ keep e (fold_forced_complete v slug name d fs (rw e at h))
  | inr (c, e) ↦ here c e (fold_forced_complete v slug name (Dict.put d f.name c) fs (rw e at h))
]
  where
    Out : Type 0
    Out =
        (Dict.get d name ≡ none)
        × ((g : Flag) → Memᴰ g (f ∷ fs) → (b : Bool) → ¬ (Forces v slug name b g))

    others :
        ((b : Bool) → ¬ (Forces v slug name b f))
        → ((g : Flag) → Memᴰ g fs → (b : Bool) → ¬ (Forces v slug name b g))
        → (g : Flag) → Memᴰ g (f ∷ fs)
        → (b : Bool) → ¬ (Forces v slug name b g)
    others no_f no_g g (Memᴰ.head q) b w = no_f b (subst (Forces v slug name b) q w)
    others no_f no_g g (Memᴰ.tail m) b w = no_g g m b w

    keep :
        forced v slug f ≡ none
        → (Dict.get d name ≡ none)
          × ((g : Flag) → Memᴰ g fs → (b : Bool) → ¬ (Forces v slug name b g))
        → (Dict.get d name ≡ none)
          × ((g : Flag) → Memᴰ g (f ∷ fs) → (b : Bool) → ¬ (Forces v slug name b g))
    keep e (q, no_g) = (q, others (λ b w. none-ne-some (sym e ∙ w.1)) no_g)

    here :
        (c : Bool)
        → forced v slug f ≡ some c
        → (Dict.get (Dict.put d f.name c) name ≡ none)
          × ((g : Flag) → Memᴰ g fs → (b : Bool) → ¬ (Forces v slug name b g))
        → (Dict.get d name ≡ none)
          × ((g : Flag) → Memᴰ g (f ∷ fs) → (b : Bool) → ¬ (Forces v slug name b g))
    here c e (q, no_g) =
        let off : (f.name == name) ≡ false = ground (arith, q, get-put d f.name name c) in
        (
          ground (arith, q, off, get-put d f.name name c),
          others (λ b w. absurd (false-ne-true (sym off ∙ (string_eq.beq_iff f.name name).1 w.0)))
              no_g,
        )

-- where an answer of the forced flags comes from
abbrev pub Sourced : String → String → List Flag → String → Option Bool → Type 0
Sourced v slug flags name (some b) = (f : Flag) × Memᴰ f flags × Forces v slug name b f
Sourced v slug flags name none =
    ¬ ((f : Flag) × Memᴰ f flags × ((b : Bool) × Forces v slug name b f))

-- A forced value comes from a flag of the catalogue of that name, in the plugin's scope, not gated
-- and with that default; and no such flag is passed over: where nothing is forced there is none.
pub resolve_forced_flags_sources :
    (v slug : String) (flags : List Flag) (name : String)
    → Sourced v slug flags name (Dict.get (resolve_forced_flags v slug flags) name)
unfolding resolve_forced_flags Dict.get
resolve_forced_flags_sources v slug flags name =
    let answer = Dict.get (fold_forced v slug [] flags) name in
    elim (Option-cases answer) [
      | inl e ↦
          subst (Sourced v slug flags name) (sym e)
            (λ (f, m, w). (fold_forced_complete v slug name [] flags e).1 f m w.0 w.1)
      | inr (b, e) ↦
          subst (Sourced v slug flags name) (sym e)
            (elim (fold_forced_sound v slug name [] flags b e) [
              | inl none_given ↦ absurd (none-ne-some none_given)
              | inr source ↦ source
            ])
    ]
