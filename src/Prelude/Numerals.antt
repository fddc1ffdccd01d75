-- ===== src/Prelude/Numerals.antt =====
-- Decimal numerals: what `int` reads of them, and that it reads what `str` writes.
use Prim.Native.Nat.{ℕ, zero, suc, ◌+◌, ◌-◌, ◌*◌, ◌/◌, ◌%◌, ◌≤◌}
use mathlib.Core.Path.{◌≡◌, refl, ap, ◌∙◌}
use mathlib.Core.Bool.{true, false}
use mathlib.Core.Option.{some}
use mathlib.Core.Logic.{inl, inr}
use mathlib.Core.List.{List, [], ◌∷◌, ◌++◌}
use native.Mathlib.Omega.{arith}
use device_management.Prelude.Tests.{ltb, Bool-cases}
use device_management.Prelude.Equality.{nat_eq}
use device_management.Prelude.Int.{ℤ, pos, negsuc}
use device_management.Prelude.Text.{
  is_digit, is_space, rstrip, strip, digits_from, signed, int_of, digits, decimal, str_int,
}

abbrev pub AllDigits : List ℕ → Type 0
AllDigits [] = Unit
AllDigits (c ∷ s) = (is_digit c ≡ true) × AllDigits s

-- one digit or more
abbrev pub IsNumeral : List ℕ → Type 0
IsNumeral [] = ⊥
IsNumeral (c ∷ s) = AllDigits (c ∷ s)

-- the number that decimal digits stand for, with `n` read before them
abbrev pub value : ℕ → List ℕ → ℕ
value n [] = n
value n (c ∷ s) = value (n * 10 + (c - 48)) s

pub IsNumeral-digits : (s : List ℕ) → IsNumeral s → AllDigits s
IsNumeral-digits [] h = absurd h
IsNumeral-digits (c ∷ s) h = h

is_digit-not_space : (c : ℕ) → is_digit c ≡ true → is_space c ≡ false
is_digit-not_space c h = ground arith

rstrip-digits : (s : List ℕ) → AllDigits s → rstrip s ≡ s
rstrip-digits [] h = refl
rstrip-digits (c ∷ []) h = rw (is_digit-not_space c h.0)
rstrip-digits (c ∷ d ∷ s) h = rw (rstrip-digits (d ∷ s) h.1, rstrip)

strip-digits : (c : ℕ) (s : List ℕ) → AllDigits (c ∷ s) → strip (c ∷ s) ≡ c ∷ s
strip-digits c s h = rw (is_digit-not_space c h.0) (rstrip-digits (c ∷ s) h)

digits_from-digits : (s : List ℕ) (n : ℕ) → AllDigits s → digits_from true n s ≡ some (value n s)
unfolding digits_from
digits_from-digits [] n h = refl
digits_from-digits (c ∷ s) n h = rw h.0 (digits_from-digits s (n * 10 + (c - 48)) h.1)

signed-digits :
    (c : ℕ) (s : List ℕ) → AllDigits (c ∷ s) → signed (c ∷ s) ≡ some (pos (value 0 (c ∷ s)))
unfolding digits_from
signed-digits c s h = ground (arith, digits_from-digits s (0 * 10 + (c - 48)) h.1)

pub int_of-numeral : (s : List ℕ) → IsNumeral s → int_of s ≡ some (pos (value 0 s))
unfolding int_of
int_of-numeral [] h = absurd h
int_of-numeral (c ∷ s) h = ap signed (strip-digits c s h) ∙ signed-digits c s h

AllDigits-append : (s t : List ℕ) → AllDigits s → AllDigits t → AllDigits (s ++ t)
AllDigits-append [] t h k = k
AllDigits-append (c ∷ s) t h k = (h.0, AllDigits-append s t h.1 k)

value-append : (n : ℕ) (s : List ℕ) (c : ℕ) → value n (s ++ c ∷ []) ≡ value n s * 10 + (c - 48)
value-append n [] c = refl
value-append n (d ∷ s) c = value-append (n * 10 + (d - 48)) s c

is_digit-mod : (n : ℕ) → is_digit (48 + n % 10) ≡ true
is_digit-mod n = ground arith

digits-AllDigits : (f n : ℕ) → AllDigits (digits f n)
unfolding digits
digits-AllDigits zero n = (is_digit-mod n, tt)
digits-AllDigits (suc f) n = elim (Bool-cases (ltb n 10)) [
  | inl e ↦ rw e (is_digit-mod n, tt)
  | inr e ↦ rw e (
      AllDigits-append (digits f (n / 10)) ((48 + n % 10) ∷ []) (digits-AllDigits f (n / 10))
        (is_digit-mod n, tt))
]

value-digits : (f n : ℕ) → n ≤ f → value 0 (digits f n) ≡ n
unfolding digits
value-digits zero n h = ground arith
value-digits (suc f) n h = elim (Bool-cases (ltb n 10)) [
  | inl e ↦ rw e (ground (arith, e))
  | inr e ↦ rw e (
      value-append 0 (digits f (n / 10)) (48 + n % 10) ∙ ground (arith, e, value-digits f (n / 10)))
]

append-IsNumeral : (s : List ℕ) (c : ℕ) → AllDigits (s ++ c ∷ []) → IsNumeral (s ++ c ∷ [])
append-IsNumeral [] c h = h
append-IsNumeral (d ∷ s) c h = h

digits-IsNumeral : (f n : ℕ) → IsNumeral (digits f n)
unfolding digits
digits-IsNumeral zero n = (is_digit-mod n, tt)
digits-IsNumeral (suc f) n = elim (Bool-cases (ltb n 10)) [
  | inl e ↦ rw e (is_digit-mod n, tt)
  | inr e ↦ rw e (
      append-IsNumeral (digits f (n / 10)) (48 + n % 10) (
        AllDigits-append (digits f (n / 10)) ((48 + n % 10) ∷ []) (digits-AllDigits f (n / 10))
          (is_digit-mod n, tt)))
]

pub decimal-IsNumeral : (n : ℕ) → IsNumeral (decimal n)
unfolding decimal
decimal-IsNumeral n = digits-IsNumeral n n

pub value-decimal : (n : ℕ) → value 0 (decimal n) ≡ n
unfolding decimal
value-decimal n = value-digits n n (omega arith)

digits_from-first :
    (c : ℕ) (s : List ℕ) → AllDigits (c ∷ s) → digits_from false 0 (c ∷ s) ≡ some (value 0 (c ∷ s))
unfolding digits_from
digits_from-first c s h = rw h.0 (digits_from-digits s (0 * 10 + (c - 48)) h.1)

strip-minus : (c : ℕ) (s : List ℕ) → AllDigits (c ∷ s) → strip (b'-' ∷ c ∷ s) ≡ b'-' ∷ c ∷ s
strip-minus c s h = rw (rstrip-digits (c ∷ s) h, rstrip)

int_of-minus :
    (n : ℕ) (s : List ℕ) → IsNumeral s → value 0 s ≡ suc n → int_of (b'-' ∷ s) ≡ some (negsuc n)
unfolding int_of
int_of-minus n [] h e = absurd h
int_of-minus n (c ∷ s) h e = ap signed (strip-minus c s h) ∙ rw (digits_from-first c s h, e)

-- `int(str(z)) == z`
pub int_of-str_int : (z : ℤ) → int_of (str_int z) ≡ some z
int_of-str_int (pos n) =
    int_of-numeral (decimal n) (decimal-IsNumeral n) ∙ ap (λ k. some (pos k)) (value-decimal n)
int_of-str_int (negsuc n) =
    int_of-minus n (decimal (suc n)) (decimal-IsNumeral (suc n)) (value-decimal (suc n))
