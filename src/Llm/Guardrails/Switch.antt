-- ===== src/Llm/Guardrails/Switch.antt =====
-- The rule `deny_all` as a switch that the configuration turns on and off.
use device_management.Llm.{Context, Response, note}
use device_management.Llm.Guardrails.{
  Guardrail, noop_guardrail, deny_all_guardrail, registered, with_rule, configured_names,
  guardrails_of, build_guardrails, blocked, check_request, check_response, trail,
}
use device_management.Prelude.{
  ◌≡◌, refl, sym, ap, ◌∙◌, subst, ◌⊎◌, inl, inr, Bool, true, false, Option, none, some, List, [],
  ◌∷◌, Bool-cases, false-ne-true, ◌==◌, nat_eq, string_eq, pair_eq, list_eq, list_beq_iff, Str,
  codes, elem,
}

-- the answers of the switch
abbrev pub policy : Response
policy = blocked (codes "blocked by policy (deny_all)") []

-- what the rules of some names do to a request and to a response, as the switch has it
abbrev pub SwitchedOn : {P : Type 0} → List (Guardrail P) → Type 0
SwitchedOn {P = P} gs =
    ((payload : P) (ctx : Context P)
      → check_request gs payload ctx
        ≡ (note (trail (codes "deny_all") (codes "deny")) ctx, some policy))
    × ((body : P) (ctx : Context P)
        → check_response gs body ctx
          ≡ (note (trail (codes "deny_all") (codes "deny_response")) ctx, inr policy))

abbrev pub SwitchedOff : {P : Type 0} → List (Guardrail P) → Type 0
SwitchedOff {P = P} gs =
    ((payload : P) (ctx : Context P)
      → check_request gs payload ctx ≡ (record ctx { payload = payload }, none))
    × ((body : P) (ctx : Context P) → check_response gs body ctx ≡ (ctx, inl body))

registered_cases :
    {P : Type 0} (name : Str)
    → ((name ≡ codes "deny_all") × (registered {P = P} name ≡ some deny_all_guardrail))
      ⊎ (((name == codes "deny_all") ≡ false)
          × ((registered {P = P} name ≡ some noop_guardrail) ⊎ (registered {P = P} name ≡ none)))
unfolding registered
registered_cases name = elim (Bool-cases (name == codes "noop")) [
  | inl e ↦ inr (apart e, inl (rw e))
  | inr e ↦ elim (Bool-cases (name == codes "deny_all")) [
    | inl f ↦ inl ((list_beq_iff name (codes "deny_all")).0 f, rw (e, f))
    | inr f ↦ inr (f, inr (rw (e, f)))
  ]
]
  where
    apart : (name == codes "noop") ≡ true → (name == codes "deny_all") ≡ false
    apart e = rw ((list_beq_iff name (codes "noop")).0 e)

guardrails_of_switch :
    {P : Type 0} (names : List Str)
    → (elem (codes "deny_all") names ≡ true → SwitchedOn (guardrails_of {P = P} names))
      × (elem (codes "deny_all") names ≡ false → SwitchedOff (guardrails_of {P = P} names))
unfolding guardrails_of check_request check_response
guardrails_of_switch [] =
    (λ h. absurd (false-ne-true h), λ h. (λ payload ctx. refl, λ body ctx. refl))
guardrails_of_switch {P = P} (name ∷ names) = elim (registered_cases {P = P} name) [
  | inl (e, f) ↦ (
    λ h. subst SwitchedOn (sym (one f)) (λ payload ctx. refl, λ body ctx. refl),
    λ h. absurd (false-ne-true (sym h ∙ rw ((list_beq_iff name (codes "deny_all")).1 e))),
  )
  | inr (e, inl f) ↦
      let (on, off) = guardrails_of_switch {P = P} names in
      (
        λ h. subst SwitchedOn (sym (one f)) (on (rw e at h)),
        λ h. subst SwitchedOff (sym (one f)) (off (rw e at h)),
      )
  | inr (e, inr f) ↦
      let (on, off) = guardrails_of_switch {P = P} names in
      (
        λ h. subst SwitchedOn (sym (one f)) (on (rw e at h)),
        λ h. subst SwitchedOff (sym (one f)) (off (rw e at h)),
      )
]
  where
    one :
        {o : Option (Guardrail P)}
        → registered name ≡ o
        → guardrails_of (name ∷ names) ≡ with_rule o (guardrails_of names)
    one f = ap (λ o. with_rule o (guardrails_of names)) f

abbrev pub Switched : {P : Type 0} → Bool → List (Guardrail P) → Type 0
Switched true gs = SwitchedOn gs
Switched false gs = SwitchedOff gs

-- The configuration is a switch: where it names `deny_all`, among whatever other rules, every
-- request is refused with the same 403 and so is every response; where it does not, both pass as
-- they are and leave no trace.
pub build_guardrails_switch :
    (P : Type 0) (loads : Str → Option (List Str)) (setting : Str)
    → Switched
        (elem (codes "deny_all") (configured_names loads setting))
        (build_guardrails {P = P} loads setting)
unfolding build_guardrails
build_guardrails_switch P loads setting =
    let names = configured_names loads setting in
    let (on, off) = guardrails_of_switch {P = P} names in
    let switched = λ (b : Bool). Switched b (guardrails_of {P = P} names) in
    elim (Bool-cases (elem (codes "deny_all") names)) [
      | inl e ↦ subst switched (sym e) (on e)
      | inr e ↦ subst switched (sym e) (off e)
    ]
