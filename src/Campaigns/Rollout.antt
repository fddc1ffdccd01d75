-- ===== src/Campaigns/Rollout.antt =====
-- A rollout only grows.
use device_management.Campaigns.{
  Stage, Campaign, stage_hours, stage_percent, current_percent, get_current_rollout_percent,
  stage_reached, eligible,
}
use device_management.Prelude.{
  ℕ, ◌+◌, ◌≤◌, String, ◌≡◌, refl, inl, inr, true, Option, none, some, List, [], ◌∷◌, arith,
  Bool-cases, ◌==◌, nat_eq, string_eq, pair_eq,
}

-- every stage reaches at least `p`
abbrev AtLeast : ℕ → List Stage → Type 0
AtLeast p [] = Unit
AtLeast p (s ∷ ss) = (p ≤ stage_percent s) × AtLeast p ss

-- the stages of a rollout that never shrinks
abbrev pub IsGrowing : List Stage → Type 0
IsGrowing [] = Unit
IsGrowing (s ∷ ss) = (stage_percent s ≤ 100) × AtLeast (stage_percent s) ss × IsGrowing ss

current_percent-bound :
    (now start c p : ℕ) (ss : List Stage)
    → p ≤ 100
    → AtLeast p ss
    → p ≤ current_percent now start c ss
unfolding current_percent
current_percent-bound now start c p [] h a = h
current_percent-bound now start c p (s ∷ ss) h a =
    ground (arith, current_percent-bound now start (c + stage_hours s) p ss h a.1)

current_percent_mono :
    (now now' start c : ℕ) (ss : List Stage)
    → now ≤ now'
    → IsGrowing ss
    → current_percent now start c ss ≤ current_percent now' start c ss
unfolding current_percent
current_percent_mono now now' start c [] h g = omega arith
current_percent_mono now now' start c (s ∷ ss) h g = ground (
  arith,
  current_percent_mono now now' start (c + stage_hours s) ss h g.2,
  current_percent-bound now' start (c + stage_hours s) (stage_percent s) ss g.0 g.1,
)

-- The percentage of a rollout whose stages do not shrink never falls as time passes.
pub get_current_rollout_percent_mono :
    (now now' : ℕ) (start : Option ℕ) (ss : List Stage)
    → now ≤ now'
    → IsGrowing ss
    → get_current_rollout_percent now start ss ≤ get_current_rollout_percent now' start ss
unfolding get_current_rollout_percent
get_current_rollout_percent_mono now now' none ss h g = omega arith
get_current_rollout_percent_mono now now' (some start) ss h g =
    current_percent_mono now now' start 0 ss h g

abbrev pub GrowingConfig : Option (List Stage) → Type 0
GrowingConfig none = Unit
GrowingConfig (some ss) = IsGrowing ss

stage_reached_mono :
    (hash now now' : ℕ) (start : Option ℕ) (config : Option (List Stage))
    → now ≤ now'
    → GrowingConfig config
    → stage_reached hash now start config ≡ true
    → stage_reached hash now' start config ≡ true
unfolding stage_reached
stage_reached_mono hash now now' start none h g e = refl
stage_reached_mono hash now now' start (some []) h g e = refl
stage_reached_mono hash now now' start (some (s ∷ ss)) h g e =
    ground (arith, get_current_rollout_percent_mono now now' start (s ∷ ss) h g)

-- A device that has reached its turn in a rollout that does not shrink keeps it.
pub eligible_mono :
    (device_hash : String → ℕ) (now now' : ℕ) (c : Campaign) (client_uuid : String)
    → now ≤ now'
    → GrowingConfig c.rollout_config
    → eligible device_hash now c client_uuid ≡ true
    → eligible device_hash now' c client_uuid ≡ true
unfolding eligible
eligible_mono device_hash now now' c u h g e = elim (Bool-cases (u == "")) [
  | inl anonymous ↦ rw anonymous
  | inr named ↦ rw named (
      stage_reached_mono (device_hash u) now now' c.campaign_created_at c.rollout_config h g
        (rw named at e))
]
