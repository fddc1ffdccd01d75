-- ===== src/Flags/Catalog/States.antt =====
-- What the statements of a reconciliation do to the state of a flag.
use mathlib.Core.Option
use device_management.Flags.{Flag}
use device_management.Flags.Catalog.{Catalog, is_flag, register, register_all, deprecate}
use device_management.Prelude.{
  ℕ, ◌+◌, String, ◌≡◌, refl, sym, ap, ◌∙◌, inl, inr, Bool, true, false, ◌&&◌, ◌||◌, Option, none,
  some, List, [], ◌∷◌, arith, if◌then◌else◌, Bool-cases, false-ne-true, any, ◌==◌, nat_eq,
  string_eq, pair_eq, ==_refl, list_eq,
}

abbrev pub find_flag : String → String → List Flag → Option Flag
find_flag slug name [] = none
find_flag slug name (f ∷ fs) = if is_flag slug name f then some f else find_flag slug name fs

-- what administrators see of a flag: its state, its least version, and whether it is deprecated
abbrev pub State : Type 0
State = Option Bool × (Option String × Bool)

abbrev pub state_of : Flag → State
state_of f = (f.default_value, (f.min_plugin_version, f.deprecated))

abbrev pub state : String → String → List Flag → Option State
state slug name fs = Option.map state_of (find_flag slug name fs)

-- a new flag is transparent, and one that exists keeps its state
abbrev pub present : Option State → Option State
present none = some (none, (none, false))
present (some (value, (low, deprecated))) = some (value, (low, false))

abbrev pub orphan : Option State → Option State
orphan none = none
orphan (some (value, (low, deprecated))) = some (value, (low, true))

register-state :
    (slug name : String) (id : ℕ) (fs : List Flag) (s n : String)
    → state s n (register slug name id fs)
      ≡ (if slug == s && name == n then present (state s n fs) else state s n fs)
unfolding register
register-state slug name id [] s n = ground arith
register-state slug name id (f ∷ fs) s n = ground (
  arith,
  string_eq.beq_iff f.plugin_slug slug,
  string_eq.beq_iff f.plugin_slug s,
  string_eq.beq_iff slug s,
  string_eq.beq_iff f.name name,
  string_eq.beq_iff f.name n,
  string_eq.beq_iff name n,
  register-state slug name id fs s n,
)

present_twice : (o : Option State) → present (present o) ≡ present o
present_twice none = refl
present_twice (some (value, (low, deprecated))) = refl

pub register_all-state :
    (slug : String) (ns : List String) (c : Catalog) (n : String)
    → state slug n (register_all slug ns c).flags ≡ (
        if any (λ (m : String). m == n) ns
        then present (state slug n c.flags)
        else state slug n c.flags)
unfolding register_all
register_all-state slug [] c n = refl
register_all-state slug (m ∷ ns) c n =
    register_all-state slug ns
      (record c { flags = register slug m c.next_id c.flags; next_id = c.next_id + 1 }) n
    ∙ rw (register-state slug m c.next_id c.flags slug n, ==_refl slug)
        (joined (m == n) (any (λ (m : String). m == n) ns) (state slug n c.flags))
  where
    joined :
        (a b : Bool) (o : Option State)
        → (if b
            then present (if true && a then present o else o)
            else if true && a
            then present o
            else o)
          ≡ (if a || b then present o else o)
    joined true true o = present_twice o
    joined true false o = refl
    joined false b o = refl

pub register_all-other :
    (slug : String) (ns : List String) (c : Catalog) (s n : String)
    → (slug == s) ≡ false
    → state s n (register_all slug ns c).flags ≡ state s n c.flags
unfolding register_all
register_all-other slug [] c s n e = refl
register_all-other slug (m ∷ ns) c s n e =
    register_all-other slug ns
      (record c { flags = register slug m c.next_id c.flags; next_id = c.next_id + 1 }) s n e
    ∙ rw (register-state slug m c.next_id c.flags s n, e)

==_comm : (a b : String) → (a == b) ≡ (b == a)
==_comm a b = ground (arith, string_eq.beq_iff a b, string_eq.beq_iff b a)

flag_names : (s n : String) (f : Flag) → is_flag s n f ≡ true → (f.plugin_slug ≡ s) × (f.name ≡ n)
flag_names s n f h =
    ground (arith, h, string_eq.beq_iff f.plugin_slug s, string_eq.beq_iff f.name n)

pub deprecate-state :
    (slug : String) (ns : List String) (fs : List Flag) (s n : String)
    → state s n (deprecate slug ns fs) ≡ (
        if slug == s && any (λ (m : String). m == n) ns
        then orphan (state s n fs)
        else state s n fs)
unfolding deprecate
deprecate-state slug ns [] s n = ground arith
deprecate-state slug ns (f ∷ fs) s n = elim (Bool-cases (is_flag s n f)) [
  | inl h ↦
      chosen (f.plugin_slug == slug && any (λ (m : String). m == f.name) ns)
        (slug == s && any (λ (m : String). m == n) ns) h (same h)
  | inr h ↦
      passed (f.plugin_slug == slug && any (λ (m : String). m == f.name) ns) h
      ∙ rw h (deprecate-state slug ns fs s n)
]
  where
    same :
        is_flag s n f ≡ true
        → (f.plugin_slug == slug && any (λ (m : String). m == f.name) ns)
          ≡ (slug == s && any (λ (m : String). m == n) ns)
    same h =
        let (p, q) = flag_names s n f h in
        ap (λ x. x == slug && any (λ (m : String). m == f.name) ns) p
        ∙ ap (λ y. s == slug && any (λ (m : String). m == y) ns) q
        ∙ ap (λ b. b && any (λ (m : String). m == n) ns) (==_comm s slug)

    chosen :
        (t r : Bool)
        → is_flag s n f ≡ true
        → t ≡ r
        → state s n ((if t then record f { deprecated = true } else f) ∷ deprecate slug ns fs)
          ≡ (if r then orphan (state s n (f ∷ fs)) else state s n (f ∷ fs))
    chosen true true h e = rw h
    chosen false false h e = rw h
    chosen true false h e = absurd (false-ne-true (sym e))
    chosen false true h e = absurd (false-ne-true e)

    passed :
        (t : Bool)
        → is_flag s n f ≡ false
        → state s n ((if t then record f { deprecated = true } else f) ∷ deprecate slug ns fs)
          ≡ state s n (deprecate slug ns fs)
    passed true h = rw h
    passed false h = rw h
