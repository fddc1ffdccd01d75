-- ===== src/Version/Order.antt =====
-- The comparison of version tuples is a strict total order.
use device_management.Version.{int_beq, int_lt, tuple_lt}
use device_management.Prelude.{
  ◌≡◌, refl, ◌⊎◌, inl, inr, true, false, List, [], ◌∷◌, arith, nat_eq, string_eq, pair_eq, ℤ, pos,
  negsuc,
}

pub int_beq→eq : (x y : ℤ) → int_beq x y ≡ true → x ≡ y
int_beq→eq (pos a) (pos b) h = ground arith
int_beq→eq (pos a) (negsuc b) h = cc
int_beq→eq (negsuc a) (pos b) h = cc
int_beq→eq (negsuc a) (negsuc b) h = ground arith

pub int_beq_refl : (x : ℤ) → int_beq x x ≡ true
int_beq_refl (pos a) = ground arith
int_beq_refl (negsuc a) = ground arith

int_lt_trichotomy : (x y : ℤ) → int_beq x y ≡ false → (int_lt x y ≡ true) ⊎ (int_lt y x ≡ true)
int_lt_trichotomy (pos a) (pos b) h = ground arith
int_lt_trichotomy (pos a) (negsuc b) h = inr refl
int_lt_trichotomy (negsuc a) (pos b) h = inl refl
int_lt_trichotomy (negsuc a) (negsuc b) h = ground arith

int_lt_trans :
    (x y z : ℤ)
    → int_lt x y ≡ true
    → int_lt y z ≡ true
    → (int_lt x z ≡ true) × (int_beq x z ≡ false)
int_lt_trans (pos a) (pos b) (pos c) h k = ground arith
int_lt_trans (negsuc a) (pos b) (pos c) h k = (refl, refl)
int_lt_trans (negsuc a) (negsuc b) (pos c) h k = (refl, refl)
int_lt_trans (negsuc a) (negsuc b) (negsuc c) h k = ground arith
int_lt_trans (pos a) (pos b) (negsuc c) h k = cc
int_lt_trans (pos a) (negsuc b) z h k = cc
int_lt_trans (negsuc a) (pos b) (negsuc c) h k = cc

pub tuple_lt_irrefl : (xs : List ℤ) → tuple_lt xs xs ≡ false
unfolding tuple_lt
tuple_lt_irrefl [] = refl
tuple_lt_irrefl (x ∷ xs) = rw (int_beq_refl x) (tuple_lt_irrefl xs)

pub tuple_lt_trichotomy :
    (xs ys : List ℤ) → (tuple_lt xs ys ≡ true) ⊎ (xs ≡ ys) ⊎ (tuple_lt ys xs ≡ true)
unfolding tuple_lt
tuple_lt_trichotomy [] [] = inr (inl refl)
tuple_lt_trichotomy [] (y ∷ ys) = inl refl
tuple_lt_trichotomy (x ∷ xs) [] = inr (inr refl)
tuple_lt_trichotomy (x ∷ xs) (y ∷ ys) = ground (
  arith,
  tuple_lt_trichotomy xs ys,
  int_beq→eq x y,
  int_beq→eq y x,
  int_beq_refl x,
  int_beq_refl y,
  int_lt_trichotomy x y,
)

pub tuple_lt_trans :
    (xs ys zs : List ℤ) → tuple_lt xs ys ≡ true → tuple_lt ys zs ≡ true → tuple_lt xs zs ≡ true
unfolding tuple_lt
tuple_lt_trans [] [] zs h k = cc
tuple_lt_trans [] (y ∷ ys) [] h k = cc
tuple_lt_trans [] (y ∷ ys) (z ∷ zs) h k = refl
tuple_lt_trans (x ∷ xs) [] zs h k = cc
tuple_lt_trans (x ∷ xs) (y ∷ ys) [] h k = cc
tuple_lt_trans (x ∷ xs) (y ∷ ys) (z ∷ zs) h k = ground (
  arith,
  tuple_lt_trans xs ys zs,
  int_beq→eq x y,
  int_beq→eq y z,
  int_beq→eq x z,
  int_lt_trans x y z,
)
