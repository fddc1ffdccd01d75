-- ===== src/Version.antt =====
-- Plugin and platform versions: `_parse_version_tuple` and `_infer_platform_variant` of app/main.py.
-- A version is a text, its tuple a list of integers; tuples are compared as Python compares them.
pub mod Order
pub mod Parse
pub mod Variants
use mathlib.Core.Option
use device_management.Prelude.Text.{codes, split_on, int_of}
use device_management.Prelude.{
  ℕ, String, refl, Bool, true, false, ◌||◌, Option, none, some, List, [], ◌∷◌, map, arith, ltb,
  if◌then◌else◌, or_else, ◌==◌, nat_eq, string_eq, pair_eq, ℤ, pos, negsuc,
}

-- `==` and `<` on `int`
abbrev pub int_beq : ℤ → ℤ → Bool
int_beq (pos a) (pos b) = a == b
int_beq (negsuc a) (negsuc b) = a == b
int_beq _ _ = false

abbrev pub int_lt : ℤ → ℤ → Bool
int_lt (pos a) (pos b) = ltb a b
int_lt (pos a) (negsuc b) = false
int_lt (negsuc a) (pos b) = true
int_lt (negsuc a) (negsuc b) = ltb b a

-- `<` on tuples: at the first place where they differ, and a proper prefix is the smaller one
unfoldable pub tuple_lt : List ℤ → List ℤ → Bool
tuple_lt [] [] = false
tuple_lt [] (y ∷ ys) = true
tuple_lt (x ∷ xs) [] = false
tuple_lt (x ∷ xs) (y ∷ ys) = let rest = tuple_lt xs ys in if int_beq x y then rest else int_lt x y

-- `tuple(int(x) for x in parts)`; `none` is the `ValueError` of one of them
all_ints : List (List ℕ) → Option (List ℤ)
all_ints [] = some []
all_ints (s ∷ ss) =
    let rest = all_ints ss in
    elim (int_of s) [ none ↦ none | some n ↦ Option.map (λ ns. n ∷ ns) rest ]

parse_codes : List ℕ → List ℤ
unfolding all_ints
parse_codes s = or_else (all_ints (split_on b'.' s)) (pos 0 ∷ [])

unfoldable pub parse_version_tuple : String → List ℤ
unfolding parse_codes split_on int_of
parse_version_tuple v = parse_codes (codes v)

unfoldable pub version_lt : String → String → Bool
unfolding parse_version_tuple tuple_lt
version_lt v w = tuple_lt (parse_version_tuple v) (parse_version_tuple w)

-- The texts "tb60", "tb78", "tb128" and "mv{n}".
pub data Variant : Type 0 where
  tb60 tb78 tb128 : Variant
  mv : ℤ → Variant

tb_variant : List ℤ → Variant
tb_variant v =
    if tuple_lt v (pos 78 ∷ pos 0 ∷ pos 0 ∷ [])
    then tb60
    else if tuple_lt v (pos 128 ∷ pos 0 ∷ pos 0 ∷ [])
    then tb78
    else tb128

-- a manifest version that is `None` or 0 is no manifest version
mv_variant : Option ℤ → Variant
mv_variant none = mv (pos 3)
mv_variant (some n) = if int_beq n (pos 0) then mv (pos 3) else mv n

pub infer_platform_variant : String → String → Option ℤ → Option Variant
unfolding tb_variant mv_variant parse_version_tuple
infer_platform_variant platform_type platform_version manifest_version =
    if platform_type == "thunderbird"
    then some (tb_variant (parse_version_tuple platform_version))
    else if platform_type == "chrome" || platform_type == "edge"
    then some (mv_variant manifest_version)
    else none
