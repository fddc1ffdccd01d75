-- ===== src/Version/Parse.antt =====
-- What `_parse_version_tuple` reads: digits between dots.
use device_management.Prelude.Text.{codes, split_on, join}
use device_management.Prelude.Numerals.{
  AllDigits, IsNumeral, IsNumeral-digits, value, int_of-numeral,
}
use device_management.Version.{all_ints, parse_version_tuple}
use device_management.Prelude.{
  ℕ, String, ◌≡◌, refl, ap, ◌∙◌, some, List, [], ◌∷◌, ◌++◌, map, arith, nat_eq, string_eq, pair_eq,
  pos,
}

abbrev pub AllNumerals : List (List ℕ) → Type 0
AllNumerals [] = Unit
AllNumerals (s ∷ ss) = IsNumeral s × AllNumerals ss

split_on-append : (s t : List ℕ) → AllDigits s → split_on b'.' (s ++ b'.' ∷ t) ≡ s ∷ split_on b'.' t
unfolding split_on
split_on-append [] t h = refl
split_on-append (c ∷ s) t h = ground (arith, split_on-append s t h.1)

split_on-digits : (s : List ℕ) → AllDigits s → split_on b'.' s ≡ s ∷ []
unfolding split_on
split_on-digits [] h = refl
split_on-digits (c ∷ s) h = ground (arith, split_on-digits s h.1)

split_on-join :
    (s : List ℕ) (ss : List (List ℕ))
    → IsNumeral s
    → AllNumerals ss
    → split_on b'.' (join b'.' (s ∷ ss)) ≡ s ∷ ss
unfolding join
split_on-join s [] h hs = split_on-digits s (IsNumeral-digits s h)
split_on-join s (t ∷ ss) h hs =
    split_on-append s (join b'.' (t ∷ ss)) (IsNumeral-digits s h)
    ∙ ap (λ r. s ∷ r) (split_on-join t ss hs.0 hs.1)

all_ints-numerals :
    (ss : List (List ℕ)) → AllNumerals ss → all_ints ss ≡ some (map (λ s. pos (value 0 s)) ss)
unfolding all_ints
all_ints-numerals [] h = refl
all_ints-numerals (s ∷ ss) h = ground (arith, int_of-numeral s h.0, all_ints-numerals ss h.1)

-- A text of one or more segments of decimal digits, joined by dots, is read as the list of the
-- numbers that the segments stand for, in order.
pub parse_version_tuple-dotted :
    (v : String) (s : List ℕ) (ss : List (List ℕ))
    → codes v ≡ join b'.' (s ∷ ss)
    → IsNumeral s
    → AllNumerals ss
    → parse_version_tuple v ≡ map (λ d. pos (value 0 d)) (s ∷ ss)
unfolding parse_version_tuple
parse_version_tuple-dotted v s ss e h hs =
    rw (e, split_on-join s ss h hs, all_ints-numerals (s ∷ ss) (h, hs))
