-- ===== src/Flags/Catalog/Names.antt =====
-- The names of flags that a template gives.
use device_management.Prelude.Dict
use device_management.Prelude.Dict.{Dict, get-put}
use device_management.Json.{Json, null, bool, num, str, arr, obj, Fields, end, field, get_field}
use device_management.Flags.Template.{
  truth, toggles_of, setdefault, add_defaults, add_sections, overwrite, toggles_or_none,
  default_section, template_names,
}
use device_management.Flags.Catalog.{insert_name, sorted, keys, in_names}
use device_management.Prelude.{
  String, ◌≡◌, refl, ap, ◌∙◌, ◌⊎◌, inl, inr, Bool, true, false, ◌||◌, some, List, [], ◌∷◌, arith,
  if◌then◌else◌, Bool-cases, is_some, false-ne-true, any, ◌==◌, nat_eq, string_eq, pair_eq, list_eq,
  codes, str_ltb,
}

abbrev pub has : String → Fields → Bool
has n end = false
has n (field k v fs) = k == n || has n fs

-- the name is a feature toggle of a section
abbrev pub in_sections : String → Fields → Bool
in_sections n end = false
in_sections n (field k section fs) = has n (toggles_of section) || in_sections n fs

abbrev pub in_template : String → Json → Bool
in_template n (obj fs) = in_sections n fs
in_template n _ = false

put-in_names :
    (names : Dict String Bool) (k n : String) (b : Bool)
    → in_names (Dict.put names k b) n ≡ (k == n || in_names names n)
put-in_names names k n b = ground (arith, get-put names k n b)

setdefault-in_names :
    (names : Dict String Bool) (k n : String) (b : Bool)
    → in_names (setdefault names k b) n ≡ (k == n || in_names names n)
setdefault-in_names names k n b = elim (Bool-cases (is_some (Dict.get names k))) [
  | inl e ↦ rw e (ground (arith, e, string_eq.beq_iff k n))
  | inr e ↦ rw e (put-in_names names k n b)
]

or_swap : (a b c : Bool) → ((b || a) || c) ≡ (a || (b || c))
or_swap a b c = ground arith

add_defaults-in_names :
    (fs : Fields) (names : Dict String Bool) (n : String)
    → in_names (add_defaults fs names) n ≡ (in_names names n || has n fs)
unfolding add_defaults
add_defaults-in_names end names n = ground arith
add_defaults-in_names (field k v fs) names n =
    add_defaults-in_names fs (setdefault names k (truth v)) n
    ∙ ap (λ b. b || has n fs) (setdefault-in_names names k n (truth v))
    ∙ or_swap (in_names names n) (k == n) (has n fs)

overwrite-in_names :
    (fs : Fields) (names : Dict String Bool) (n : String)
    → in_names (overwrite fs names) n ≡ (in_names names n || has n fs)
unfolding overwrite
overwrite-in_names end names n = ground arith
overwrite-in_names (field k v fs) names n =
    overwrite-in_names fs (Dict.put names k (truth v)) n
    ∙ ap (λ b. b || has n fs) (put-in_names names k n (truth v))
    ∙ or_swap (in_names names n) (k == n) (has n fs)

add_sections-in_names :
    (fs : Fields) (names : Dict String Bool) (n : String)
    → in_names (add_sections fs names) n ≡ (in_names names n || in_sections n fs)
unfolding add_sections
add_sections-in_names end names n = ground arith
add_sections-in_names (field k s fs) names n =
    add_sections-in_names fs (add_defaults (toggles_of s) names) n
    ∙ ap (λ b. b || in_sections n fs) (add_defaults-in_names (toggles_of s) names n)
    ∙ ground arith

-- a toggle of the default section is one of some section
default-in_sections :
    (fs : Fields) (n : String) → has n (default_section fs) ≡ true → in_sections n fs ≡ true
unfolding get_field
default-in_sections end n h = absurd (false-ne-true h)
default-in_sections (field k s fs) n h = chosen (k == "default") (default-in_sections fs n) h
  where
    chosen :
        (b : Bool)
        → (has n (default_section fs) ≡ true → in_sections n fs ≡ true)
        → has n (toggles_or_none (if b then some s else get_field fs "default")) ≡ true
        → (has n (toggles_of s) || in_sections n fs) ≡ true
    chosen true ih h = rw h
    chosen false ih h = rw (ih h) (ground arith)

-- The names that the template gives are the toggles of its sections.
pub template_names-in_template :
    (t : Json) (n : String) → in_names (template_names t) n ≡ in_template n t
unfolding template_names Dict.get
template_names-in_template (obj fs) n =
    overwrite-in_names (default_section fs) (add_sections fs []) n
    ∙ ap (λ b. b || has n (default_section fs)) (add_sections-in_names fs [] n)
    ∙ covered (Bool-cases (has n (default_section fs)))
  where
    covered :
        (has n (default_section fs) ≡ true) ⊎ (has n (default_section fs) ≡ false)
        → ((false || in_sections n fs) || has n (default_section fs)) ≡ in_sections n fs
    covered (inl e) = rw (e, default-in_sections fs n e)
    covered (inr e) = rw e (ground arith)
template_names-in_template null n = refl
template_names-in_template (bool _) n = refl
template_names-in_template (num _) n = refl
template_names-in_template (str _) n = refl
template_names-in_template (arr _) n = refl

-- membership in a sorted list
insert_name-any :
    (n m : String) (ms : List String)
    → any (λ (x : String). x == n) (insert_name m ms) ≡ (m == n || any (λ (x : String). x == n) ms)
insert_name-any n m [] = refl
insert_name-any n m (k ∷ ms) = elim (Bool-cases (str_ltb (codes k) (codes m))) [
  | inl e ↦ rw (e, insert_name-any n m ms) (ground arith)
  | inr e ↦ rw e
]

pub sorted-any :
    (n : String) (ms : List String)
    → any (λ (x : String). x == n) (sorted ms) ≡ any (λ (x : String). x == n) ms
unfolding sorted
sorted-any n [] = refl
sorted-any n (m ∷ ms) = insert_name-any n m (sorted ms) ∙ ap (λ b. m == n || b) (sorted-any n ms)

keys-any :
    (n : String) (names : Dict String Bool)
    → any (λ (x : String). x == n) (keys names) ≡ in_names names n
unfolding Dict.get
keys-any n [] = refl
keys-any n ((k, b) ∷ names) = ground (arith, keys-any n names)

-- what is registered is what the template has
pub names-any :
    (t : Json) (n : String)
    → any (λ (x : String). x == n) (sorted (keys (template_names t))) ≡ in_template n t
names-any t n =
    sorted-any n (keys (template_names t))
    ∙ keys-any n (template_names t)
    ∙ template_names-in_template t n
