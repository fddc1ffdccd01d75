-- ===== src/Relay/Targets.antt =====
-- The targets of relay credentials: the sorted lists and the rights that go with `config`.
use device_management.Relay.{
  Settings, insert_sorted, sorted_set, ensure, normalized, nonempty, relay_allowed_targets,
  named_targets, with_right, effective_targets,
}
use device_management.Prelude.{
  ◌≡◌, refl, sym, ◌∙◌, subst, ◌⊎◌, inl, inr, Bool, true, ◌||◌, List, [], ◌∷◌, ◌++◌, arith,
  Bool-cases, ◌==◌, nat_eq, string_eq, pair_eq, ==_refl, list_eq, list_beq_iff, Str, codes, lower,
  strip, elem,
}

elem-insert_sorted :
    (s t : Str) (us : List Str) → elem s (insert_sorted t us) ≡ (t == s || elem s us)
elem-insert_sorted s t [] = ground arith
elem-insert_sorted s t (u ∷ us) =
    ground (arith, elem-insert_sorted s t us, list_beq_iff t u, list_beq_iff t s, list_beq_iff u s)

elem-sorted_set : (s : Str) (ts : List Str) → elem s (sorted_set ts) ≡ elem s ts
elem-sorted_set s [] = refl
elem-sorted_set s (t ∷ ts) =
    ground (arith, elem-insert_sorted s t (sorted_set ts), elem-sorted_set s ts)

elem-append : (s : Str) (ts us : List Str) → elem s (ts ++ us) ≡ (elem s ts || elem s us)
elem-append s [] us = refl
elem-append s (t ∷ ts) us = ground (arith, elem-append s ts us)

elem-ensure : (s t : Str) (ts : List Str) → elem s (ensure t ts) ≡ (t == s || elem s ts)
elem-ensure s t ts = ground (arith, elem-append s ts (t ∷ []), list_beq_iff t s)

elem-normalized :
    (s : Str) (ts : List Str)
    → lower (strip s) ≡ s
    → nonempty (strip s) ≡ true
    → elem s ts ≡ true
    → elem s (normalized ts) ≡ true
elem-normalized s [] k n h = h
elem-normalized s (t ∷ ts) k n h = elim (Bool-cases (t == s)) [
  | inl e ↦
      subst (λ u. elem s (normalized (u ∷ ts)) ≡ true) (sym ((list_beq_iff t s).0 e))
        (rw n (rw k (rw (==_refl s))))
  | inr e ↦ ground (arith, e, h, elem-normalized s ts k n)
]

-- The targets that every device holds: `config`, `telemetry` and `llm`.
abbrev pub Core : Str → Type 0
Core t = (t ≡ codes "config") ⊎ ((t ≡ codes "telemetry") ⊎ (t ≡ codes "llm"))

with_right-keeps : (s t : Str) (ts : List Str) → elem s ts ≡ true → elem s (with_right t ts) ≡ true
with_right-keeps s t ts h =
    ground (arith, h, elem-sorted_set s (ts ++ t ∷ []), elem-append s ts (t ∷ []))

with_right-adds :
    (t : Str) (ts : List Str) → elem (codes "config") ts ≡ true → elem t (with_right t ts) ≡ true
with_right-adds t ts h =
    ground (arith, h, elem-sorted_set t (ts ++ t ∷ []), elem-append t ts (t ∷ []), ==_refl t)

pub effective_targets-Core :
    (ts : List Str) (t : Str)
    → elem (codes "config") (normalized ts) ≡ true
    → Core t
    → elem t (effective_targets ts) ≡ true
unfolding effective_targets
effective_targets-Core ts t h c =
    let base = sorted_set (normalized ts) in
    let has_config = elem-sorted_set (codes "config") (normalized ts) ∙ h in
    let more = with_right (codes "telemetry") base in
    let more_config = with_right-keeps (codes "config") (codes "telemetry") base has_config in
    elim c [
      | inl e ↦ rw e (with_right-keeps (codes "config") (codes "llm") more more_config)
      | inr (inl e) ↦ rw e (
          with_right-keeps (codes "telemetry") (codes "llm") more
            (with_right-adds (codes "telemetry") base has_config))
      | inr (inr e) ↦ rw e (with_right-adds (codes "llm") more more_config)
    ]

one_of :
    (a b c x y z : Bool)
    → x ≡ (b || y)
    → y ≡ (c || z)
    → (c ≡ true) ⊎ ((b ≡ true) ⊎ (a ≡ true))
    → (a || x) ≡ true
one_of a b c x y z p q h = ground (arith, p, q, h)

named : {s t : Str} → t ≡ s → (s == t) ≡ true
named {s} {t} e = (list_beq_iff s t).1 (sym e)

ensured-Core :
    (ts : List Str) (t : Str)
    → Core t
    → elem t (
        sorted_set (ensure (codes "llm") (ensure (codes "telemetry") (ensure (codes "config") ts))))
      ≡ true
ensured-Core ts t c =
    let a = ensure (codes "config") ts in
    let b = ensure (codes "telemetry") a in
    elem-sorted_set t (ensure (codes "llm") b)
    ∙ elem-ensure t (codes "llm") b
    ∙ one_of (codes "llm" == t) (codes "telemetry" == t) (codes "config" == t) (elem t b) (elem t a)
        (elem t ts) (elem-ensure t (codes "telemetry") a) (elem-ensure t (codes "config") ts)
        (elim c [
          | inl e ↦ inl (named e)
          | inr (inl e) ↦ inr (inl (named e))
          | inr (inr e) ↦ inr (inr (named e))
        ])

-- Whatever targets the deployment sets, those of a minted credential include `config`, `telemetry`
-- and `llm`.
pub relay_allowed_targets-Core :
    (cfg : Settings) (t : Str) → Core t → elem t (relay_allowed_targets cfg) ≡ true
unfolding relay_allowed_targets
relay_allowed_targets-Core cfg t c = ensured-Core (named_targets cfg) t c

pub relay_allowed_targets-config :
    (cfg : Settings) → elem (codes "config") (normalized (relay_allowed_targets cfg)) ≡ true
relay_allowed_targets-config cfg =
    elem-normalized (codes "config") (relay_allowed_targets cfg) refl refl
      (relay_allowed_targets-Core cfg (codes "config") (inl refl))
