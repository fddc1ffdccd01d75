-- ===== src/Campaigns/Choice.antt =====
-- Which campaign a device is served.
use device_management.Campaigns.{Campaign}
use device_management.Campaigns.Tables.{
  CampaignRow, Artifact, active, plugin_update, candidate, newest, left_join, host_accepted,
  cohort_matches, resolve_active_campaign, served, later_of,
}
use device_management.Prelude.{
  none-ne-some, ℕ, ◌≤◌, String, ◌≡◌, refl, sym, ap, ◌∙◌, subst, ◌⊎◌, inl, inr, Bool, true, false,
  Option, none, some, List, [], ◌∷◌, Memᴰ, arith, ltb, Bool-cases, select, Each, Memᴰ-select,
  nat_eq, string_eq, pair_eq,
}

newest-some :
    (cs : List CampaignRow) (c : CampaignRow)
    → newest cs ≡ some c
    → Memᴰ c cs × Each (λ (b : CampaignRow). b.created_at ≤ c.created_at) cs
unfolding newest
newest-some [] c h = absurd (none-ne-some h)
newest-some (b ∷ []) c h = let e : c ≡ b = cc in (Memᴰ.head e, λ x m. only e m)
  where
    only : {x : CampaignRow} → c ≡ b → Memᴰ x (b ∷ []) → x.created_at ≤ c.created_at
    only e (Memᴰ.head q) = ground arith
    only e (Memᴰ.tail t) = elim t [ ]
newest-some (b ∷ b' ∷ bs) c h =
    choose (newest-some (b' ∷ bs) (later_of b' (newest bs)) refl)
      (Bool-cases (ltb b.created_at (later_of b' (newest bs)).created_at))
  where
    top : CampaignRow
    top = later_of b' (newest bs)

    all :
        (x : CampaignRow)
        → b.created_at ≤ c.created_at
        → top.created_at ≤ c.created_at
        → Each (λ (b : CampaignRow). b.created_at ≤ top.created_at) (b' ∷ bs)
        → Memᴰ x (b ∷ b' ∷ bs)
        → x.created_at ≤ c.created_at
    all x p q r (Memᴰ.head e) = ground arith
    all x p q r (Memᴰ.tail m) = omega (arith, r x m)

    choose :
        Memᴰ top (b' ∷ bs) × Each (λ (b : CampaignRow). b.created_at ≤ top.created_at) (b' ∷ bs)
        → (ltb b.created_at top.created_at ≡ true) ⊎ (ltb b.created_at top.created_at ≡ false)
        → Memᴰ c (b ∷ b' ∷ bs)
          × Each (λ (x : CampaignRow). x.created_at ≤ c.created_at) (b ∷ b' ∷ bs)
    choose (m, r) (inl e) =
        let same : top ≡ c = ground arith in
        (
          Memᴰ.tail (subst (λ x. Memᴰ x (b' ∷ bs)) same m),
          λ x. all x (ground arith) (ground arith) r,
        )
    choose (m, r) (inr e) =
        let same : c ≡ b = ground arith in
        (Memᴰ.head same, λ x. all x (ground arith) (ground arith) r)

Memᴰ-select_intro :
    {A : Type 0} (p : A → Bool) {a : A} (xs : List A)
    → Memᴰ a xs
    → p a ≡ true
    → Memᴰ a (select p xs)
Memᴰ-select_intro p [] m h = elim m [ ]
Memᴰ-select_intro p {a} (x ∷ xs) (Memᴰ.head e) h = rw (ap p (sym e) ∙ h) (Memᴰ.head e)
Memᴰ-select_intro p {a} (x ∷ xs) (Memᴰ.tail m) h = elim (Bool-cases (p x)) [
  | inl e ↦ rw e (Memᴰ.tail (Memᴰ-select_intro p xs m h))
  | inr e ↦ rw e (Memᴰ-select_intro p xs m h)
]

candidate_parts :
    (ids : List ℕ) (c : CampaignRow)
    → candidate ids c ≡ true
    → (c.status ≡ active)
      × (c.kind ≡ plugin_update)
      × (cohort_matches ids c.target_cohort_id ≡ true)
unfolding candidate
candidate_parts ids c h = ground arith

served-some :
    (p : String) (as' : List Artifact) (o : Option CampaignRow) (x : Campaign)
    → served p as' o ≡ some x
    → (c : CampaignRow) × (o ≡ some c)
      × (x.campaign_id ≡ c.id)
      × (host_accepted p (left_join c.artifact_id as') ≡ true)
unfolding served
served-some p as' none x h = absurd (none-ne-some h)
served-some p as' (some c) x h = (c, refl, ground arith, ground arith)

-- The campaign that a device is served is active, of the type 'plugin_update' and meant for all
-- devices or for one of the device's cohorts, no such campaign was created later, and its artifact
-- accepts the platform's version.
pub resolve_active_campaign_newest :
    (ids : List ℕ) (device_type platform_version : String) (campaigns : List CampaignRow)
    (artifacts : List Artifact) {x : Campaign}
    → resolve_active_campaign ids device_type platform_version campaigns artifacts ≡ some x
    → (c : CampaignRow) × Memᴰ c campaigns
      × (x.campaign_id ≡ c.id)
      × (c.status ≡ active)
      × (c.kind ≡ plugin_update)
      × (cohort_matches ids c.target_cohort_id ≡ true)
      × (host_accepted platform_version (left_join c.artifact_id artifacts) ≡ true)
      × ((b : CampaignRow)
          → Memᴰ b campaigns
          → candidate ids b ≡ true
          → b.created_at ≤ c.created_at)
unfolding resolve_active_campaign
resolve_active_campaign_newest ids dt p cs as' {x} h =
    let cands = select (candidate ids) cs in
    let (c, e, same, host) = served-some p as' (newest cands) x h in
    let (m, last) = newest-some cands c e in
    let (mc, good) = Memᴰ-select (candidate ids) cs m in
    let (a, k, t) = candidate_parts ids c good in
    (c, mc, same, a, k, t, host, λ b mb hb. last b (Memᴰ-select_intro (candidate ids) cs mb hb))
