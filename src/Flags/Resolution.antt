-- ===== src/Flags/Resolution.antt =====
-- The loop of `_resolve_feature_flags`: what the rows of the query make of one flag.
use device_management.Prelude.Dict
use device_management.Prelude.Dict.{Dict, get-put}
use device_management.Flags.{Row, applies, conjoin, fold_rows}
use device_management.Prelude.{
  String, ◌≡◌, ap, ◌∙◌, inl, inr, Bool, true, not, ◌&&◌, Option, none, some, List, [], ◌∷◌, arith,
  if◌then◌else◌, Bool-cases, or_else, any, ◌==◌, nat_eq, string_eq, pair_eq,
}

-- the rows that count for a flag
abbrev pub counts : String → String → Row → Bool
counts v name r = applies v r && r.name == name

-- the value that the rows give a flag, whatever their order: false wins
abbrev pub verdict : String → String → List Row → Option Bool
verdict v name rs =
    if any (counts v name) rs
    then some (not (any (λ (r : Row). counts v name r && not r.value) rs))
    else none

-- what the rows make of a value that an earlier one has set
abbrev pub after : Option Bool → Option Bool → Option Bool
after none later = later
after (some b) none = some b
after (some b) (some c) = some (b && c)

denied_counts :
    (v name : String) (rs : List Row)
    → any (λ (r : Row). counts v name r && not r.value) rs ≡ true
    → any (counts v name) rs ≡ true
denied_counts v name [] h = h
denied_counts v name (r ∷ rs) h = ground (arith, denied_counts v name rs)

pub fold_rows-verdict :
    (v name : String) (flags : Dict String Bool) (rs : List Row)
    → Dict.get (fold_rows v flags rs) name ≡ after (Dict.get flags name) (verdict v name rs)
unfolding fold_rows
fold_rows-verdict v name flags [] = ground arith
fold_rows-verdict v name flags (r ∷ rs) = elim (Bool-cases (applies v r)) [
  | inr e ↦ rw e (rw (fold_rows-verdict v name flags rs))
  | inl e ↦
      ap (λ d. Dict.get (fold_rows v d rs) name) (taken e)
      ∙ fold_rows-verdict v name (conjoin flags r) rs
      ∙ step e
]
  where
    taken : applies v r ≡ true → (if applies v r then conjoin flags r else flags) ≡ conjoin flags r
    taken e = rw e

    step :
        applies v r ≡ true
        → after (Dict.get (conjoin flags r) name) (verdict v name rs)
          ≡ after (Dict.get flags name) (verdict v name (r ∷ rs))
    step e = ground (
      arith,
      e,
      denied_counts v name rs,
      get-put flags r.name name (or_else (Dict.get flags r.name) true && r.value),
      string_eq.beq_iff r.name name,
    )
