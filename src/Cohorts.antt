-- ===== src/Cohorts.antt =====
-- The cohorts of a device: `_resolve_device_cohorts` of app/main.py with its cache of groups. The
-- SHA-256 of a device's identifier, as a number, and the regular expressions are parameters; an
-- expression that is invalid matches nothing. The configuration of a cohort is read already, and a
-- query of the cohorts that fails gives none.
pub mod Groups
use device_management.Prelude.Dict
use device_management.Prelude.Dict.{Dict}
use device_management.Prelude.Text.{nonempty}
use device_management.Prelude.{
  ℕ, ◌+◌, ◌%◌, refl, Bool, true, false, not, ◌&&◌, Option, none, some, List, [], ◌∷◌, map, arith,
  ltb, if◌then◌else◌, any, ◌==◌, nat_eq, string_eq, pair_eq, ℤ, pos, negsuc, list_eq, Str, lower,
  elem,
}

-- the type of a cohort with what its configuration has for it
pub data Rule : Type 0 where
  manual : Rule
  percentage : ℤ → Rule
  email_pattern : Str → Rule
  keycloak_group : Str → Rule
  unknown : Rule

pub record Cohort : Type 0 where
  pub id : ℕ
  pub rule : Rule

pub data IdentifierType : Type 0 where
  by_email by_client_uuid : IdentifierType

-- a row of `cohort_members`
pub record Member : Type 0 where
  pub cohort_id : ℕ
  pub identifier_type : IdentifierType
  pub identifier_value : Str

pub record Device : Type 0 where
  pub email : Str
  pub client_uuid : Str

-- `_KC_GROUP_CACHE`: the end of an entry's life, and the addresses of the group
abbrev pub GroupCache : Type 0
GroupCache = Dict Str (ℕ × List Str)

abbrev pub identifies : Device → Member → Bool
identifies d m = elim m.identifier_type [
  | by_email ↦ m.identifier_value == d.email
  | by_client_uuid ↦ m.identifier_value == d.client_uuid
]

-- the query on the members; `fails` says that it raises an exception, which is caught
unfoldable pub manual_matched : Bool → List Member → Device → ℕ → Bool
manual_matched fails members d id =
    not fails && any (λ (m : Member). m.cohort_id == id && identifies d m) members

abbrev pub cached_emails : ℕ → Option (ℕ × List Str) → Option (List Str)
cached_emails now none = none
cached_emails now (some (expires_at, emails)) = if ltb now expires_at then some emails else none

-- what the lookup gives; a miss leaves an entry without any address
abbrev pub given : GroupCache → Str → ℕ → Option (List Str) → List Str × GroupCache
given cache name expires_at (some emails) = (emails, cache)
given cache name expires_at none = ([], Dict.put cache name (expires_at, []))

unfoldable pub group_emails : ℕ → ℕ → GroupCache → Str → List Str × GroupCache
group_emails ttl now cache name =
    given cache name (now + ttl) (cached_emails now (Dict.get cache name))

module _ (sha256_number : Str → ℕ) (matches : Str → Str → Bool) (ttl : ℕ) (fails : Bool)
    (members : List Member) where
  abbrev pub below_percentage : Device → ℤ → Bool
  below_percentage d (pos n) =
      ltb 0 n && nonempty d.client_uuid && ltb (sha256_number d.client_uuid % 100) n
  below_percentage d (negsuc n) = false

  -- the group of a cohort, where the name and the address are not empty
  abbrev pub in_group : ℕ → Device → Str → GroupCache → Bool × GroupCache
  in_group now d name cache =
      let (emails, after) = group_emails ttl now cache name in
      if nonempty name && nonempty d.email
      then (elem (lower d.email) (map lower emails), after)
      else (false, cache)

  unfoldable pub match_cohort : ℕ → Device → Rule → ℕ → GroupCache → Bool × GroupCache
  unfolding manual_matched group_emails
  match_cohort now d manual id cache = (manual_matched fails members d id, cache)
  match_cohort now d (percentage p) id cache = (below_percentage d p, cache)
  match_cohort now d (email_pattern s) id cache = (nonempty s && matches s d.email, cache)
  match_cohort now d (keycloak_group name) id cache = in_group now d name cache
  match_cohort now d unknown id cache = (false, cache)

  abbrev pub with_cohort : Bool → ℕ → List ℕ × GroupCache → List ℕ × GroupCache
  with_cohort matched id (ids, cache) = (if matched then id ∷ ids else ids, cache)

  -- the ids of the cohorts that the device is in, in the order of the rows
  unfoldable pub resolve_device_cohorts :
      ℕ → Device → List Cohort → GroupCache → List ℕ × GroupCache
  unfolding match_cohort
  resolve_device_cohorts now d [] cache = ([], cache)
  resolve_device_cohorts now d (c ∷ cs) cache =
      let (matched, after) = match_cohort now d c.rule c.id cache in
      with_cohort matched c.id (resolve_device_cohorts now d cs after)
