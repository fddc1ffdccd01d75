-- ===== src/Flags/Catalog/Reconcile.antt =====
-- What a reconciliation of the catalogue does to each flag.
use device_management.Prelude.Dict.{Dict}
use device_management.Json.{Json}
use device_management.Flags.{Flag}
use device_management.Flags.Template.{template_names}
use device_management.Flags.Catalog.{
  Catalog, sorted, keys, existing, register_all, in_names, absent, reconcile_catalog_from_template,
}
use device_management.Prelude.{
  String, ◌≡◌, refl, ◌∙◌, inl, inr, Bool, true, false, not, ◌&&◌, ◌||◌, Option, none, some, List,
  [], ◌∷◌, map, arith, if◌then◌else◌, Bool-cases, false-ne-true, any, select, ◌==◌, nat_eq,
  string_eq, pair_eq, ==_refl, list_eq,
}
use device_management.Flags.Catalog.Names.{
  in_template, template_names-in_template, sorted-any, names-any,
}
use device_management.Flags.Catalog.States.{
  State, state, present, orphan, register_all-state, register_all-other, deprecate-state,
}

-- a flag that is not deprecated has the name
abbrev live_row : String → Dict String Bool → Bool
live_row n rows = any (λ (p : String × Bool). p.0 == n && not p.1) rows

absent-any :
    (names : Dict String Bool) (n : String) (rows : Dict String Bool)
    → any (λ (x : String). x == n) (absent false names rows)
      ≡ (not (in_names names n) && live_row n rows)
absent-any names n [] = ground arith
absent-any names n ((k, b) ∷ rows) = elim (Bool-cases (k == n)) [
  | inl e ↦ at_name ((string_eq.beq_iff k n).0 e) (absent-any names n rows)
  | inr e ↦ apart (not (in_names names k)) b e (absent-any names n rows)
]
  where
    rest : List String
    rest = absent false names rows

    at_name :
        k ≡ n
        → any (λ (x : String). x == n) rest ≡ (not (in_names names n) && live_row n rows)
        → any (λ (x : String). x == n) (absent false names ((k, b) ∷ rows))
          ≡ (not (in_names names n) && ((k == n && not b) || live_row n rows))
    at_name e ih = rw e (ground (arith, ih, ==_refl n))

    apart :
        (a c : Bool)
        → (k == n) ≡ false
        → any (λ (x : String). x == n) rest ≡ (not (in_names names n) && live_row n rows)
        → any
            (λ (x : String). x == n)
            (map
              (λ (p : String × Bool). p.0)
              (if a && not c
                then (k, b)
                  ∷ select (λ (p : String × Bool). not (in_names names p.0) && not p.1) rows
                else select (λ (p : String × Bool). not (in_names names p.0) && not p.1) rows))
          ≡ (not (in_names names n) && ((k == n && not b) || live_row n rows))
    apart true false e ih = rw (e, ih)
    apart true true e ih = rw (e, ih)
    apart false c e ih = rw (e, ih)

abbrev is_live : Option State → Bool
is_live none = false
is_live (some (value, (low, deprecated))) = not deprecated

live_row-state :
    (slug n : String) (fs : List Flag)
    → is_live (state slug n fs) ≡ true
    → live_row n (existing slug fs) ≡ true
unfolding existing
live_row-state slug n [] h = absurd (false-ne-true h)
live_row-state slug n (f ∷ fs) h = elim (Bool-cases (f.plugin_slug == slug)) [
  | inr e ↦ rw e (live_row-state slug n fs (rw e at h))
  | inl e ↦ elim (Bool-cases (f.name == n)) [
    | inl q ↦ rw e (rw (q, rw (e, q) at h))
    | inr q ↦ rw e (rw q (live_row-state slug n fs (rw (e, q) at h)))
  ]
]

-- what a reconciliation makes of the state of a flag of the plugin
abbrev pub reconciled : Bool → Option State → Option State
reconciled true o = present o
reconciled false o = orphan o

-- A reconciliation leaves a flag of the template that is new transparent, and keeps what an
-- administrator set on every flag that exists, with its least version; a flag of the plugin is
-- deprecated from then on exactly when no section of the template has it.
pub reconcile_catalog_from_template-state :
    (slug : String) (template : Json) (c : Catalog) (n : String)
    → state slug n (reconcile_catalog_from_template slug template c).0.flags
      ≡ reconciled (in_template n template) (state slug n c.flags)
unfolding reconcile_catalog_from_template
reconcile_catalog_from_template-state slug template c n =
    let names = template_names template in
    let rows = existing slug c.flags in
    let ns = sorted (keys names) in
    deprecate-state slug (sorted (absent false names rows)) (register_all slug ns c).flags slug n
    ∙ rw
        (
          ==_refl slug,
          sorted-any n (absent false names rows),
          absent-any names n rows,
          template_names-in_template template n,
          register_all-state slug ns c n,
          names-any template n,
        )
        (settled (in_template n template))
  where
    orphaned :
        (o : Option State) (b : Bool)
        → (is_live o ≡ true → b ≡ true)
        → (if b then orphan o else o) ≡ orphan o
    orphaned none true h = refl
    orphaned none false h = refl
    orphaned (some (v, (l, d))) true h = refl
    orphaned (some (v, (l, true))) false h = refl
    orphaned (some (v, (l, false))) false h = absurd (false-ne-true (h refl))

    settled :
        (b : Bool)
        → (if true && (not b && live_row n (existing slug c.flags))
            then orphan (if b then present (state slug n c.flags) else state slug n c.flags)
            else if b
            then present (state slug n c.flags)
            else state slug n c.flags)
          ≡ reconciled b (state slug n c.flags)
    settled true = refl
    settled false =
        orphaned (state slug n c.flags) (live_row n (existing slug c.flags))
          (live_row-state slug n c.flags)

-- The flags of other plugins are left as they are.
pub reconcile_catalog_from_template-other :
    (slug other : String) (template : Json) (c : Catalog) (n : String)
    → (slug == other) ≡ false
    → state other n (reconcile_catalog_from_template slug template c).0.flags
      ≡ state other n c.flags
unfolding reconcile_catalog_from_template
reconcile_catalog_from_template-other slug other template c n e =
    let names = template_names template in
    deprecate-state slug (sorted (absent false names (existing slug c.flags)))
      (register_all slug (sorted (keys names)) c).flags other n
    ∙ rw e (register_all-other slug (sorted (keys names)) c other n e)
