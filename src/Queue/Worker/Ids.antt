-- ===== src/Queue/Worker/Ids.antt =====
-- Lists whose keys are all different.
use device_management.Prelude.{
  ℕ, ◌≡◌, refl, sym, ap, ◌∙◌, ◌≢◌, Bool, inl, inr, Bool-cases, List, [], ◌∷◌, ◌++◌, map, Memᴰ,
  select, Memᴰ-select, Memᴰ-map, Memᴰ-append_cases, Each,
}

module _ {A : Type 0} (key : A → ℕ) where
  abbrev pub DistinctBy : List A → Type 0
  DistinctBy [] = Unit
  DistinctBy (x ∷ xs) = Each (λ y. key y ≢ key x) xs × DistinctBy xs

  pub DistinctBy-select : (p : A → Bool) (xs : List A) → DistinctBy xs → DistinctBy (select p xs)
  DistinctBy-select p [] d = tt
  DistinctBy-select p (x ∷ xs) d = elim (Bool-cases (p x)) [
    | inl e ↦ rw e ((λ y m. d.0 y (Memᴰ-select p xs m).0), DistinctBy-select p xs d.1)
    | inr e ↦ rw e (DistinctBy-select p xs d.1)
  ]

  pub DistinctBy-append :
      (xs : List A) (x : A)
      → Each (λ y. key y ≢ key x) xs
      → DistinctBy xs
      → DistinctBy (xs ++ x ∷ [])
  DistinctBy-append [] x fresh d = ((λ y m. elim m [ ]), tt)
  DistinctBy-append (z ∷ xs) x fresh d =
      (later, DistinctBy-append xs x (λ y m. fresh y (Memᴰ.tail m)) d.1)
    where
      last : {y : A} → Memᴰ y (x ∷ []) → key y ≢ key z
      last (Memᴰ.head e) q = fresh z (Memᴰ.head refl) (sym q ∙ ap key e)
      last (Memᴰ.tail t) q = elim t [ ]

      later : Each (λ y. key y ≢ key z) (xs ++ x ∷ [])
      later y m = elim (Memᴰ-append_cases xs (x ∷ []) m) [ inl l ↦ d.0 y l | inr r ↦ last r ]

module _ {A B : Type 0} (key : A → ℕ) (key' : B → ℕ) (f : A → B)
    (same : (a : A) → key' (f a) ≡ key a) where
  pub DistinctBy-map : (xs : List A) → DistinctBy key xs → DistinctBy key' (map f xs)
  DistinctBy-map [] d = tt
  DistinctBy-map (x ∷ xs) d = (others, DistinctBy-map xs d.1)
    where
      others : Each (λ y. key' y ≢ key' (f x)) (map f xs)
      others y m q =
          let (a, ma, e) = Memᴰ-map f xs m in d.0 a ma (sym (same a) ∙ ap key' (sym e) ∙ q ∙ same x)
