-- ===== src/Examples/ToyJson.antt =====
-- A toy printer and parser of lists of texts: each character is moved by a hundred, and each text
-- begins with a mark.
use device_management.RuntimeConfig.{Lib}
use device_management.RuntimeConfig.Stored.{JsonLaws}
use device_management.Prelude.Text.{rstrip}
use device_management.Prelude.{
  ℕ, ◌+◌, ◌-◌, ◌≤◌, ◌≡◌, refl, ap, none, some, List, [], ◌∷◌, arith, if◌then◌else◌, ◌==◌, nat_eq,
  string_eq, pair_eq, list_eq, Str,
}

abbrev printed_text : Str → Str → Str
printed_text [] rest = rest
printed_text (c ∷ s) rest = (c + 100) ∷ printed_text s rest

abbrev pub printed : List Str → Str
printed [] = b']' ∷ []
printed (s ∷ ss) = 60 ∷ printed_text s (printed ss)

-- the text that is being read, and those that follow it
abbrev read_code : ℕ → Str × List Str → Str × List Str
read_code c (current, texts) =
    if c == 93
    then ([], [])
    else if c == 60
    then ([], current ∷ texts)
    else ((c - 100) ∷ current, texts)

abbrev read : Str → Str × List Str
read [] = ([], [])
read (c ∷ s) = read_code c (read s)

abbrev pub json : Lib
json = record {
  dumps = λ ss. b'[' ∷ printed ss;
  loads = λ s. elim s [ [] ↦ none | c ∷ t ↦ some (read t).1 ];
  repr = λ ss. [];
}

read-printed_text :
    (s t : Str) (ss : List Str) → read t ≡ ([], ss) → read (printed_text s t) ≡ (s, ss)
read-printed_text [] t ss h = h
read-printed_text (c ∷ s) t ss h =
    rw (read-printed_text s t ss h) (letter (c + 100) (omega arith) (omega arith))
  where
    letter : (d : ℕ) → 100 ≤ d → d - 100 ≡ c → read_code d (s, ss) ≡ (c ∷ s, ss)
    letter d h e = ground (arith, h, e)

read-printed : (ss : List Str) → read (printed ss) ≡ ([], ss)
read-printed [] = refl
read-printed (s ∷ ss) = rw (read-printed_text s (printed ss) ss (read-printed ss)) refl

rstrip-visible : (c : ℕ) (s : Str) → rstrip s ≡ s → 33 ≤ c → rstrip (c ∷ s) ≡ c ∷ s
rstrip-visible c [] e h = ground (arith, h)
rstrip-visible c (d ∷ s) e h = rw e

rstrip-printed_text : (s t : Str) → rstrip t ≡ t → rstrip (printed_text s t) ≡ printed_text s t
rstrip-printed_text [] t h = h
rstrip-printed_text (c ∷ s) t h =
    rstrip-visible (c + 100) (printed_text s t) (rstrip-printed_text s t h) (omega arith)

rstrip-printed : (ss : List Str) → rstrip (printed ss) ≡ printed ss
rstrip-printed [] = refl
rstrip-printed (s ∷ ss) =
    rstrip-visible 60 (printed_text s (printed ss))
      (rstrip-printed_text s (printed ss) (rstrip-printed ss)) (omega arith)

pub json_laws : JsonLaws json
json_laws = record {
  body = printed;
  shape = λ ss. rstrip-visible b'[' (printed ss) (rstrip-printed ss) (omega arith);
  loads-dumps = λ ss. ap (λ (r : Str × List Str). some r.1) (read-printed ss);
}
