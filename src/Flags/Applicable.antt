-- ===== src/Flags/Applicable.antt =====
-- Which overrides count for a device, and what they make of a flag.
use device_management.Prelude.Dict
use device_management.Prelude.Dict.{Dict, get-put}
use device_management.Flags.Resolution.{counts, fold_rows-verdict}
use device_management.Flags.{
  Flag, Override, Row, applies, gated, override_rows, resolve_feature_flags, in_scope, join_flags,
}
use device_management.Prelude.{
  ℕ, String, ◌≡◌, refl, sym, ap, ◌∙◌, subst, ◌↔◌, ◌⊎◌, inl, inr, Bool, true, false, not, ◌&&◌,
  Option, none, some, List, [], ◌∷◌, Memᴰ, arith, if◌then◌else◌, Bool-cases, false-ne-true, any,
  Memᴰ-append_right, Memᴰ-append_left, any→Memᴰ, Memᴰ→any, false-ne-true, Memᴰ-append_cases, ◌==◌,
  nat_eq, string_eq, pair_eq,
}

-- what two tests make of an answer, when one says that something counts and one that it denies
false_wins :
    (counted denies : Bool) {served : Option Bool} {Yes No : Type 0}
    → served ≡ (if counted then some (not denies) else none)
    → (denies ≡ true → No)
    → (No → denies ≡ true)
    → (Yes → counted ≡ true)
    → (No → counted ≡ true)
    → (counted ≡ true → denies ≡ false → Yes)
    → ((served ≡ some false) ↔ No)
      × ((served ≡ some true) ↔ (Yes × ¬ No))
      × ((served ≡ none) ↔ (¬ Yes × ¬ No))
false_wins true true e n n' y c a = ground (arith, n refl)
false_wins true false e n n' y c a = ground (arith, a refl refl)
false_wins false true e n n' y c a = ground (arith, c (n refl))
false_wins false false e n n' y c a = ground arith

-- An override that counts for a device and a flag: it is of one of the device's cohorts and of a
-- flag of that name in the catalogue, not deprecated and in the scope of the plugin, and neither
-- the override nor the flag asks for a newer version than the plugin's.
pub record Applicable (cohorts : List ℕ) (v slug : String) (flags : List Flag)
    (overrides : List Override) (name : String) (value : Bool) : Type 0 where
  pub override : Override
  pub flag : Flag
  pub known : Memᴰ override overrides
  pub listed : Memᴰ flag flags
  pub cohort : any (λ (c : ℕ). override.cohort_id == c) cohorts ≡ true
  pub joined : (flag.id == override.feature_id && in_scope slug flag) ≡ true
  pub open_flag : gated v flag.min_plugin_version ≡ false
  pub open_override : gated v override.min_plugin_version ≡ false
  pub named : flag.name ≡ name
  pub valued : override.value ≡ value

row_of : Override → Flag → Row
row_of o f = record {
  name = f.name;
  value = o.value;
  override_min = o.min_plugin_version;
  flag_min = f.min_plugin_version;
}

join_flags-Memᴰ :
    (slug : String) (o : Override) (fs : List Flag) (r : Row)
    → Memᴰ r (join_flags slug o fs)
    → (f : Flag) × Memᴰ f fs × ((f.id == o.feature_id && in_scope slug f) ≡ true) × (r ≡ row_of o f)
unfolding join_flags row_of
join_flags-Memᴰ slug o [] r m = elim m [ ]
join_flags-Memᴰ slug o (f ∷ fs) r m = elim (Bool-cases (f.id == o.feature_id && in_scope slug f)) [
  | inr e ↦ let (g, mg, t, q) = join_flags-Memᴰ slug o fs r (rw e at m) in (g, Memᴰ.tail mg, t, q)
  | inl e ↦ first_or e (rw e at m) (join_flags-Memᴰ slug o fs r)
]
  where
    first_or :
        (f.id == o.feature_id && in_scope slug f) ≡ true
        → Memᴰ r (row_of o f ∷ join_flags slug o fs)
        → (Memᴰ r (join_flags slug o fs)
            → (g : Flag) × Memᴰ g fs
              × ((g.id == o.feature_id && in_scope slug g) ≡ true)
              × (r ≡ row_of o g))
        → (g : Flag) × Memᴰ g (f ∷ fs)
          × ((g.id == o.feature_id && in_scope slug g) ≡ true)
          × (r ≡ row_of o g)
    first_or e (Memᴰ.head q) ih = (f, Memᴰ.head refl, e, q)
    first_or e (Memᴰ.tail t) ih = let (g, mg, u, q) = ih t in (g, Memᴰ.tail mg, u, q)

Memᴰ-join_flags :
    (slug : String) (o : Override) (fs : List Flag) (f : Flag)
    → Memᴰ f fs
    → (f.id == o.feature_id && in_scope slug f) ≡ true
    → Memᴰ (row_of o f) (join_flags slug o fs)
unfolding join_flags row_of
Memᴰ-join_flags slug o [] f m h = elim m [ ]
Memᴰ-join_flags slug o (g ∷ gs) f (Memᴰ.head q) h =
    rw (ap (λ (x : Flag). x.id == o.feature_id && in_scope slug x) (sym q) ∙ h)
      (Memᴰ.head (ap (row_of o) q))
Memᴰ-join_flags slug o (g ∷ gs) f (Memᴰ.tail m) h =
    elim (Bool-cases (g.id == o.feature_id && in_scope slug g)) [
      | inr e ↦ rw e (Memᴰ-join_flags slug o gs f m h)
      | inl e ↦ rw e (Memᴰ.tail (Memᴰ-join_flags slug o gs f m h))
    ]

override_rows-Memᴰ :
    (cohorts : List ℕ) (slug : String) (fs : List Flag) (os : List Override) (r : Row)
    → Memᴰ r (override_rows cohorts slug fs os)
    → (o : Override) × Memᴰ o os
      × (any (λ (c : ℕ). o.cohort_id == c) cohorts ≡ true)
      × Memᴰ r (join_flags slug o fs)
unfolding override_rows
override_rows-Memᴰ cohorts slug fs [] r m = elim m [ ]
override_rows-Memᴰ cohorts slug fs (o ∷ os) r m =
    elim (Bool-cases (any (λ (c : ℕ). o.cohort_id == c) cohorts)) [
      | inr e ↦ deeper (override_rows-Memᴰ cohorts slug fs os r (rw e at m))
      | inl e ↦
          elim (Memᴰ-append_cases (join_flags slug o fs) (override_rows cohorts slug fs os)
            (rw e at m)) [
              | inl l ↦ (o, Memᴰ.head refl, e, l)
              | inr l ↦ deeper (override_rows-Memᴰ cohorts slug fs os r l)
            ]
    ]
  where
    deeper :
        (p : Override) × Memᴰ p os
          × (any (λ (c : ℕ). p.cohort_id == c) cohorts ≡ true)
          × Memᴰ r (join_flags slug p fs)
        → (p : Override) × Memᴰ p (o ∷ os)
          × (any (λ (c : ℕ). p.cohort_id == c) cohorts ≡ true)
          × Memᴰ r (join_flags slug p fs)
    deeper (p, mp, c, l) = (p, Memᴰ.tail mp, c, l)

Memᴰ-override_rows :
    (cohorts : List ℕ) (slug : String) (fs : List Flag) (os : List Override) (o : Override)
    (r : Row)
    → Memᴰ o os
    → any (λ (c : ℕ). o.cohort_id == c) cohorts ≡ true
    → Memᴰ r (join_flags slug o fs)
    → Memᴰ r (override_rows cohorts slug fs os)
unfolding override_rows
Memᴰ-override_rows cohorts slug fs [] o r m c l = elim m [ ]
Memᴰ-override_rows cohorts slug fs (p ∷ os) o r (Memᴰ.head q) c l =
    rw (ap (λ (x : Override). any (λ (c : ℕ). x.cohort_id == c) cohorts) (sym q) ∙ c) (
      Memᴰ-append_left (join_flags slug p fs) (override_rows cohorts slug fs os)
        (subst (λ (x : Override). Memᴰ r (join_flags slug x fs)) q l))
Memᴰ-override_rows cohorts slug fs (p ∷ os) o r (Memᴰ.tail m) c l =
    let rest = Memᴰ-override_rows cohorts slug fs os o r m c l in
    elim (Bool-cases (any (λ (c : ℕ). p.cohort_id == c) cohorts)) [
      | inr e ↦ rw e rest
      | inl e ↦
          rw e (Memᴰ-append_right (join_flags slug p fs) (override_rows cohorts slug fs os) rest)
    ]

module _ (cohorts : List ℕ) (v slug : String) (flags : List Flag) (overrides : List Override)
    (name : String) where
  rows : List Row
  rows = override_rows cohorts slug flags overrides

  to_Applicable :
      (r : Row)
      → Memᴰ r (override_rows cohorts slug flags overrides)
      → counts v name r ≡ true
      → Applicable cohorts v slug flags overrides name r.value
  unfolding row_of applies
  to_Applicable r m c =
      let (o, mo, co, l) = override_rows-Memᴰ cohorts slug flags overrides r m in
      let (f, mf, j, q) = join_flags-Memᴰ slug o flags r l in
      let c' : counts v name (row_of o f) ≡ true = subst (λ x. counts v name x ≡ true) q c in
      record {
        override = o;
        flag = f;
        known = mo;
        listed = mf;
        cohort = co;
        joined = j;
        open_flag = ground arith;
        open_override = ground arith;
        named = (string_eq.beq_iff f.name name).0 (ground arith);
        valued = sym (ap (λ (x : Row). x.value) q);
      }

  of_Applicable :
      (b : Bool)
      → Applicable cohorts v slug flags overrides name b
      → (r : Row) × Memᴰ r (override_rows cohorts slug flags overrides)
        × (counts v name r ≡ true)
        × (r.value ≡ b)
  unfolding row_of applies
  of_Applicable b a = (
    row_of a.override a.flag,
    Memᴰ-override_rows cohorts slug flags overrides a.override (row_of a.override a.flag) a.known
        a.cohort (Memᴰ-join_flags slug a.override flags a.flag a.listed a.joined),
    ground (arith, a.open_flag, a.open_override, (string_eq.beq_iff a.flag.name name).1 a.named),
    a.valued,
  )

  denied : Row → Bool
  denied r = counts v name r && not r.value

  denied→Applicable : any denied rows ≡ true → Applicable cohorts v slug flags overrides name false
  unfolding rows denied
  denied→Applicable h =
      let (r, m, c) = any→Memᴰ denied rows h in
      subst (λ b. Applicable cohorts v slug flags overrides name b) (ground (arith, c))
        (to_Applicable r m (ground (arith, c)))

  Applicable→denied : Applicable cohorts v slug flags overrides name false → any denied rows ≡ true
  unfolding rows denied
  Applicable→denied a =
      let (r, m, c, e) = of_Applicable false a in Memᴰ→any denied rows r m (rw (c, e))

  Applicable→counted :
      (b : Bool)
      → Applicable cohorts v slug flags overrides name b
      → any (counts v name) rows ≡ true
  unfolding rows
  Applicable→counted b a =
      let (r, m, c, e) = of_Applicable b a in Memᴰ→any (counts v name) rows r m c

  counted→Applicable :
      any (counts v name) rows ≡ true
      → any denied rows ≡ false
      → Applicable cohorts v slug flags overrides name true
  unfolding rows denied
  counted→Applicable h n =
      let (r, m, c) = any→Memᴰ (counts v name) rows h in
      subst (λ b. Applicable cohorts v slug flags overrides name b)
        (allowed r m c (Bool-cases r.value)) (to_Applicable r m c)
    where
      allowed :
          (r : Row)
          → Memᴰ r rows
          → counts v name r ≡ true
          → (r.value ≡ true) ⊎ (r.value ≡ false)
          → r.value ≡ true
      allowed r m c (inl e) = e
      allowed r m c (inr e) = absurd (false-ne-true (sym n ∙ Memᴰ→any denied rows r m (rw (c, e))))

  served_lem :
      Dict.get (resolve_feature_flags cohorts v slug flags overrides) name
      ≡ (if any (counts v name) rows then some (not (any denied rows)) else none)
  unfolding resolve_feature_flags rows denied Dict.get
  served_lem = fold_rows-verdict v name [] rows

  -- What a device is served of the cohorts' overrides of a flag: false exactly when an override
  -- that counts says false, true exactly when one counts and none of them says false, and nothing
  -- exactly when none counts. The order of the rows plays no part.
  pub resolve_feature_flags-false_wins :
      let App = Applicable cohorts v slug flags overrides name in
      let served = Dict.get (resolve_feature_flags cohorts v slug flags overrides) name in
      ((served ≡ some false) ↔ App false)
      × ((served ≡ some true) ↔ (App true × ¬ (App false)))
      × ((served ≡ none) ↔ (¬ (App true) × ¬ (App false)))
  resolve_feature_flags-false_wins =
      false_wins (any (counts v name) rows) (any denied rows) served_lem denied→Applicable
        Applicable→denied (Applicable→counted true) (Applicable→counted false) counted→Applicable
