-- ===== src/Prelude/Lists.antt =====
-- Lists over the native numbers, and membership as data.
use Prim.Native.Nat.{ℕ, zero, suc, ◌+◌, ◌≤◌}
use mathlib.Core.Path.{◌≡◌, refl, sym, ap, ◌∙◌}
use mathlib.Core.Logic.{◌⊎◌, inl, inr}
use mathlib.Core.Bool.{Bool, true, false, ◌||◌}
use mathlib.Core.List.{List, [], ◌∷◌, ◌++◌, map, Memᴰ}
use native.Mathlib.Omega.{arith}
use device_management.Prelude.Tests.{if◌then◌else◌, Bool-cases}

module _ {ℓ} {A : Type ℓ} where
  abbrev pub length : List A → ℕ
  length [] = 0
  length (x ∷ xs) = suc (length xs)

  abbrev pub take : ℕ → List A → List A
  take zero xs = []
  take (suc n) [] = []
  take (suc n) (x ∷ xs) = x ∷ take n xs

  -- `any(p(x) for x in xs)`
  abbrev pub any : (A → Bool) → List A → Bool
  any p [] = false
  any p (x ∷ xs) = p x || any p xs

  -- `[x for x in xs if p(x)]`
  abbrev pub select : (A → Bool) → List A → List A
  select p [] = []
  select p (x ∷ xs) = let rest = select p xs in if p x then x ∷ rest else rest

  pub length-append : (xs ys : List A) → length (xs ++ ys) ≡ length xs + length ys
  length-append [] ys = omega arith
  length-append (x ∷ xs) ys = omega (arith, length-append xs ys)

  pub length-take-le : (n : ℕ) (xs : List A) → length (take n xs) ≤ n
  length-take-le zero xs = omega arith
  length-take-le (suc n) [] = omega arith
  length-take-le (suc n) (x ∷ xs) = omega (arith, length-take-le n xs)

  pub length-select-le : (p : A → Bool) (xs : List A) → length (select p xs) ≤ length xs
  length-select-le p [] = omega arith
  length-select-le p (x ∷ xs) = ground (arith, length-select-le p xs)

-- What holds of every member.
abbrev pub Each {ℓ κ} : {A : Type ℓ} → (A → Type κ) → List A → Type (ℓ ⊔ κ)
Each {A} P xs = (x : A) → Memᴰ x xs → P x

module _ {ℓ} {A : Type ℓ} where
  pub Memᴰ-append_right : {a : A} (xs ys : List A) → Memᴰ a ys → Memᴰ a (xs ++ ys)
  Memᴰ-append_right [] ys m = m
  Memᴰ-append_right (x ∷ xs) ys m = Memᴰ.tail (Memᴰ-append_right xs ys m)

  pub Memᴰ-append_left : {a : A} (xs ys : List A) → Memᴰ a xs → Memᴰ a (xs ++ ys)
  Memᴰ-append_left [] ys m = elim m [ ]
  Memᴰ-append_left (x ∷ xs) ys (Memᴰ.head p) = Memᴰ.head p
  Memᴰ-append_left (x ∷ xs) ys (Memᴰ.tail m) = Memᴰ.tail (Memᴰ-append_left xs ys m)

  pub Memᴰ-append_cases : {a : A} (xs ys : List A) → Memᴰ a (xs ++ ys) → Memᴰ a xs ⊎ Memᴰ a ys
  Memᴰ-append_cases [] ys m = inr m
  Memᴰ-append_cases (x ∷ xs) ys (Memᴰ.head p) = inl (Memᴰ.head p)
  Memᴰ-append_cases (x ∷ xs) ys (Memᴰ.tail m) = elim (Memᴰ-append_cases xs ys m) [
    | inl l ↦ inl (Memᴰ.tail l)
    | inr r ↦ inr r
  ]

  pub Memᴰ-select :
      (p : A → Bool) {a : A} (xs : List A) → Memᴰ a (select p xs) → Memᴰ a xs × (p a ≡ true)
  Memᴰ-select p [] m = elim m [ ]
  Memᴰ-select p {a} (x ∷ xs) m = split (Memᴰ-select p xs) (Bool-cases (p x))
    where
      found :
          Memᴰ a (x ∷ select p xs)
          → (Memᴰ a (select p xs) → Memᴰ a xs × (p a ≡ true))
          → p x ≡ true
          → Memᴰ a (x ∷ xs) × (p a ≡ true)
      found (Memᴰ.head q) ih e = (Memᴰ.head q, ap p q ∙ e)
      found (Memᴰ.tail t) ih e = let (l, h) = ih t in (Memᴰ.tail l, h)

      split :
          (Memᴰ a (select p xs) → Memᴰ a xs × (p a ≡ true))
          → (p x ≡ true) ⊎ (p x ≡ false)
          → Memᴰ a (x ∷ xs) × (p a ≡ true)
      split ih (inl e) = found (rw e at m) ih e
      split ih (inr e) = let (l, h) = ih (rw e at m) in (Memᴰ.tail l, h)

  pub Memᴰ-take : (n : ℕ) {a : A} (xs : List A) → Memᴰ a (take n xs) → Memᴰ a xs
  Memᴰ-take zero xs m = elim m [ ]
  Memᴰ-take (suc n) [] m = elim m [ ]
  Memᴰ-take (suc n) (x ∷ xs) (Memᴰ.head p) = Memᴰ.head p
  Memᴰ-take (suc n) (x ∷ xs) (Memᴰ.tail m) = Memᴰ.tail (Memᴰ-take n xs m)

module _ {ℓ κ} {A : Type ℓ} {B : Type κ} where
  pub Memᴰ-map :
      (f : A → B) {b : B} (xs : List A) → Memᴰ b (map f xs) → (a : A) × Memᴰ a xs × (b ≡ f a)
  Memᴰ-map f [] m = elim m [ ]
  Memᴰ-map f (x ∷ xs) (Memᴰ.head p) = (x, Memᴰ.head refl, p)
  Memᴰ-map f (x ∷ xs) (Memᴰ.tail m) = let (a, m', e) = Memᴰ-map f xs m in (a, Memᴰ.tail m', e)

  pub Memᴰ-map_intro : (f : A → B) {a : A} (xs : List A) → Memᴰ a xs → Memᴰ (f a) (map f xs)
  Memᴰ-map_intro f [] m = elim m [ ]
  Memᴰ-map_intro f (x ∷ xs) (Memᴰ.head p) = Memᴰ.head (ap f p)
  Memᴰ-map_intro f (x ∷ xs) (Memᴰ.tail m) = Memᴰ.tail (Memᴰ-map_intro f xs m)

module _ {ℓ} {A : Type ℓ} where
  pub any→Memᴰ : (p : A → Bool) (xs : List A) → any p xs ≡ true → (x : A) × Memᴰ x xs × (p x ≡ true)
  any→Memᴰ p [] h = absurd (ground arith)
  any→Memᴰ p (x ∷ xs) h = elim (Bool-cases (p x)) [
    | inl e ↦ (x, Memᴰ.head refl, e)
    | inr e ↦ let (y, m, q) = any→Memᴰ p xs (rw e at h) in (y, Memᴰ.tail m, q)
  ]

  pub Memᴰ→any : (p : A → Bool) (xs : List A) (x : A) → Memᴰ x xs → p x ≡ true → any p xs ≡ true
  Memᴰ→any p [] x m h = elim m [ ]
  Memᴰ→any p (y ∷ ys) x (Memᴰ.head e) h = rw (ap p (sym e) ∙ h)
  Memᴰ→any p (y ∷ ys) x (Memᴰ.tail m) h = rw (Memᴰ→any p ys x m h) (ground arith)
