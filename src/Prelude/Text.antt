-- ===== src/Prelude/Text.antt =====
-- Python's `str` as a list of code points, for the code that walks its characters. Whitespace,
-- digits and letters are those of ASCII.
use Prim.Native.Char.{code}
use mathlib.Core.Option
use Prim.Native.Nat.{ℕ, zero, suc, ◌+◌, ◌-◌, ◌*◌, ◌/◌, ◌%◌}
use Prim.Native.String.{String}
use mathlib.Core.Bool.{Bool, true, false, ◌&&◌, ◌||◌}
use mathlib.Core.Option.{Option, none, some}
use mathlib.Core.List.{List, [], ◌∷◌, ◌++◌, map}
use device_management.Prelude.Tests.{ltb, leb, if◌then◌else◌}
use device_management.Prelude.Lists.{any}
use device_management.Prelude.Equality.{◌==◌, nat_eq, list_eq}
use device_management.Prelude.Int.{ℤ, pos, negsuc, neg}

-- A text as its code points.
abbrev pub Str : Type 0
Str = List ℕ

-- The code points of a text. `String` has its own `[]` and `∷`.
abbrev pub codes : String → List ℕ
codes String.[] = []
codes (String.◌∷◌ c s) = code c ∷ codes s

abbrev pub is_digit : ℕ → Bool
is_digit c = leb 48 c && leb c 57

abbrev pub is_space : ℕ → Bool
is_space c = c == 32 || leb 9 c && leb c 13 || leb 28 c && leb c 31

abbrev pub lower_code : ℕ → ℕ
lower_code c = if leb 65 c && leb c 90 then c + 32 else c

-- `s.lower()`
abbrev pub lower : List ℕ → List ℕ
lower = map lower_code

-- `s.lstrip()`
abbrev pub lstrip : List ℕ → List ℕ
lstrip [] = []
lstrip (c ∷ s) = let rest = lstrip s in if is_space c then rest else c ∷ s

-- `s.rstrip()`
abbrev pub rstrip : List ℕ → List ℕ
rstrip [] = []
rstrip (c ∷ s) = elim (rstrip s) [ [] ↦ if is_space c then [] else c ∷ [] | d ∷ r ↦ c ∷ d ∷ r ]

-- `s.strip()`
abbrev pub strip : List ℕ → List ℕ
strip s = rstrip (lstrip s)

abbrev pub cons_first : ℕ → List (List ℕ) → List (List ℕ)
cons_first c [] = (c ∷ []) ∷ []
cons_first c (s ∷ ss) = (c ∷ s) ∷ ss

-- `s.split(sep)` at a separator of one character
unfoldable pub split_on : ℕ → List ℕ → List (List ℕ)
split_on sep [] = [] ∷ []
split_on sep (c ∷ s) =
    let rest = split_on sep s in if c == sep then [] ∷ rest else cons_first c rest

-- `sep.join(parts)`
unfoldable pub join : ℕ → List (List ℕ) → List ℕ
join sep [] = []
join sep (s ∷ []) = s
join sep (s ∷ t ∷ ss) = s ++ sep ∷ join sep (t ∷ ss)

-- The digits of `int(s)`; `ok` says that the last character was a digit, so that one `_` may follow.
unfoldable pub digits_from : Bool → ℕ → List ℕ → Option ℕ
digits_from ok n [] = if ok then some n else none
digits_from ok n (c ∷ s) =
    let digit = digits_from true (n * 10 + (c - 48)) s in
    let gap = digits_from false n s in
    if is_digit c then digit else if c == b'_' && ok then gap else none

abbrev pub signed : List ℕ → Option ℤ
signed [] = none
signed (c ∷ s) =
    if c == b'-'
    then Option.map neg (digits_from false 0 s)
    else if c == b'+'
    then Option.map pos (digits_from false 0 s)
    else Option.map pos (digits_from false 0 (c ∷ s))

-- `int(s)`; `none` is its `ValueError`
unfoldable pub int_of : List ℕ → Option ℤ
unfolding digits_from
int_of s = signed (strip s)

-- `a < b` of texts, code point by code point
abbrev pub str_ltb : Str → Str → Bool
str_ltb [] [] = false
str_ltb [] (d ∷ t) = true
str_ltb (c ∷ s) [] = false
str_ltb (c ∷ s) (d ∷ t) = ltb c d || (c == d && str_ltb s t)

-- `s in ts`
abbrev pub elem : Str → List Str → Bool
elem s ts = any (λ (t : Str). t == s) ts

-- `a or b` of texts
abbrev pub first_text : Str → Str → Str
first_text [] t = t
first_text (c ∷ s) t = c ∷ s

-- a digit of `str(n)`, on fuel that is as large as the number
unfoldable pub digits : ℕ → ℕ → Str
digits zero n = (48 + n % 10) ∷ []
digits (suc fuel) n =
    let rest = digits fuel (n / 10) in
    if ltb n 10 then (48 + n % 10) ∷ [] else rest ++ (48 + n % 10) ∷ []

-- `str(n)` of a natural number
unfoldable pub decimal : ℕ → Str
unfolding digits
decimal n = digits n n

-- `s.startswith(prefix)`
abbrev pub starts_with : Str → Str → Bool
starts_with [] s = true
starts_with (c ∷ p) [] = false
starts_with (c ∷ p) (d ∷ s) = c == d && starts_with p s

-- `s[len(prefix):]`
abbrev pub drop_prefix : Str → Str → Str
drop_prefix [] s = s
drop_prefix (c ∷ p) [] = []
drop_prefix (c ∷ p) (d ∷ s) = drop_prefix p s

-- `bool(s)`
abbrev pub nonempty : Str → Bool
nonempty [] = false
nonempty (c ∷ s) = true

-- `str(z)` of an integer
abbrev pub str_int : ℤ → Str
str_int (pos n) = decimal n
str_int (negsuc n) = b'-' ∷ decimal (suc n)
