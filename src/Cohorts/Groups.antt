-- ===== src/Cohorts/Groups.antt =====
-- What becomes of cohorts that stand for a group of Keycloak.
use device_management.Prelude.Dict
use device_management.Prelude.Dict.{Dict, get-put}
use device_management.Prelude.Text.{nonempty}
use device_management.Cohorts.{
  Rule, manual, percentage, email_pattern, keycloak_group, unknown, Cohort, Member, Device,
  GroupCache, cached_emails, given, group_emails, in_group, match_cohort, resolve_device_cohorts,
}
use device_management.Prelude.{
  ℕ, ◌+◌, ◌≡◌, refl, sym, ap, ◌∙◌, inl, inr, Bool, true, false, not, ◌&&◌, Option, none, some, List,
  [], ◌∷◌, ltb, if◌then◌else◌, Bool-cases, none-ne-some, select, ◌==◌, nat_eq, string_eq, pair_eq,
  list_eq, Str,
}

-- no entry of the cache has an address
pub record NoEmails (cache : GroupCache) : Type 0 where
  pub empty : (name : Str) (entry : ℕ × List Str) → Dict.get cache name ≡ some entry → entry.1 ≡ []

pub NoEmails-empty : NoEmails []
unfolding Dict.get
NoEmails-empty = record { empty = λ name entry found. absurd (none-ne-some found) }

NoEmails-put :
    (cache : GroupCache) (name : Str) (until : ℕ)
    → NoEmails cache
    → NoEmails (Dict.put cache name (until, []))
NoEmails-put cache name until h = record {
  empty = λ other entry found. elim (Bool-cases (name == other)) [
    | inl e ↦ ap emails_of (sym (sym (rw e at (get-put cache name other (until, []))) ∙ found))
    | inr e ↦ h.empty other entry (sym (rw e at (get-put cache name other (until, []))) ∙ found)
  ];
}
  where
    emails_of : Option (ℕ × List Str) → List Str
    emails_of none = []
    emails_of (some x) = x.1

group_emails-NoEmails :
    (ttl now : ℕ) (cache : GroupCache) (name : Str)
    → NoEmails cache
    → ((group_emails ttl now cache name).0 ≡ []) × NoEmails (group_emails ttl now cache name).1
unfolding group_emails
group_emails-NoEmails ttl now cache name h = looked_up (Dict.get cache name) refl
  where
    looked_up :
        (o : Option (ℕ × List Str))
        → Dict.get cache name ≡ o
        → ((given cache name (now + ttl) (cached_emails now o)).0 ≡ [])
          × NoEmails (given cache name (now + ttl) (cached_emails now o)).1
    looked_up none q = (refl, NoEmails-put cache name (now + ttl) h)
    looked_up (some entry) q = elim (Bool-cases (ltb now entry.0)) [
      | inl e ↦ rw e (h.empty name entry q, h)
      | inr e ↦ rw e (refl, NoEmails-put cache name (now + ttl) h)
    ]

abbrev pub is_group : Cohort → Bool
is_group c = elim c.rule [ keycloak_group name ↦ true | other ↦ false ]

module _ (sha256_number : Str → ℕ) (matches : Str → Str → Bool) (ttl : ℕ) (fails : Bool)
    (members : List Member) (now : ℕ) (d : Device) where
  -- the cohorts of the device, with a cache of groups
  abbrev resolved : List Cohort → GroupCache → List ℕ × GroupCache
  resolved = resolve_device_cohorts sha256_number matches ttl fails members now d

  in_group-NoEmails :
      (name : Str) (cache : GroupCache)
      → NoEmails cache
      → let r = in_group sha256_number matches ttl fails members now d name cache in
        (r.0 ≡ false) × NoEmails r.1
  in_group-NoEmails name cache h =
      let (nobody, kept) = group_emails-NoEmails ttl now cache name h in
      elim (Bool-cases (nonempty name && nonempty d.email)) [
        | inl e ↦ rw (e, nobody) (refl, kept)
        | inr e ↦ rw e (refl, h)
      ]

  -- Where no entry of the cache of groups has an address, as at the start, the cohorts of a device
  -- are those that it would have if no cohort stood for a group of Keycloak, and afterwards no entry
  -- has an address either: such cohorts have no device, for ever.
  pub resolve_device_cohorts-no_groups :
      (cs : List Cohort) (cache : GroupCache)
      → NoEmails cache
      → ((resolved cs cache).0 ≡ (resolved (select (λ (c : Cohort). not (is_group c)) cs) []).0)
        × NoEmails (resolved cs cache).1
  unfolding resolve_device_cohorts match_cohort
  resolve_device_cohorts-no_groups [] cache h = (refl, h)
  resolve_device_cohorts-no_groups (c ∷ cs) cache h =
      by_rule c.id c.rule (resolve_device_cohorts-no_groups cs)
    where
      Alike : List Cohort → GroupCache → Type 0
      Alike xs k =
          ((resolved xs k).0 ≡ (resolved (select (λ (x : Cohort). not (is_group x)) xs) []).0)
          × NoEmails (resolved xs k).1

      -- a cohort whose rule does not read the cache
      kept :
          (b : Bool) (i : ℕ) {ids ids' : List ℕ}
          → ids ≡ ids'
          → (if b then i ∷ ids else ids) ≡ (if b then i ∷ ids' else ids')
      kept b i q = ap (λ (ids : List ℕ). if b then i ∷ ids else ids) q

      skipped : (b : Bool) (i : ℕ) (ids : List ℕ) → b ≡ false → (if b then i ∷ ids else ids) ≡ ids
      skipped b i ids e = rw e refl

      by_rule :
          (i : ℕ) (r : Rule)
          → ((k : GroupCache) → NoEmails k → Alike cs k)
          → Alike (record { id = i; rule = r } ∷ cs) cache
      by_rule i manual ih = (kept _ i (ih cache h).0, (ih cache h).1)
      by_rule i (percentage p) ih = (kept _ i (ih cache h).0, (ih cache h).1)
      by_rule i (email_pattern p) ih = (kept _ i (ih cache h).0, (ih cache h).1)
      by_rule i unknown ih = (kept false i (ih cache h).0, (ih cache h).1)
      by_rule i (keycloak_group name) ih =
          let (off, clean) = in_group-NoEmails name cache h in
          let (q, clean_after) = ih _ clean in (skipped _ i _ off ∙ q, clean_after)
