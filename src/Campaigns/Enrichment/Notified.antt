-- ===== src/Campaigns/Enrichment/Notified.antt =====
-- A device that is served a directive, and what the tables say of it.
use device_management.Prelude.Dict.{Dict}
use device_management.Campaigns.{Campaign, Directive, build_update_directive, directive_for}
use device_management.Campaigns.Tables.{CampaignRow, active, plugin_update, cohort_matches}
use device_management.Campaigns.Choice.{resolve_active_campaign_newest}
use device_management.Campaigns.Progress.{
  DeviceStatus, notified, nonempty, noticed_row, noticed, upsert_campaign_device_status,
}
use device_management.Campaigns.Progress.Reports.{lookup, lookup-upsert_self}
use device_management.Campaigns.Enrichment.{
  Tables, Fails, Asker, or_misc, active_campaign, note_device, enrich,
}
use device_management.Prelude.{
  ℕ, String, ◌≡◌, refl, ◌≢◌, ◌⊎◌, inl, inr, Bool, true, false, Option, none, some, List, Memᴰ,
  arith, Bool-cases, none-ne-some, ◌==◌, nat_eq, string_eq, pair_eq, list_eq,
}

build_update_directive-campaign :
    (device_hash : String → ℕ) (now : ℕ) (v : String) (c : Campaign) (u n : String) {d : Directive}
    → build_update_directive device_hash now v (some c) u n ≡ some d
    → d.campaign_id ≡ c.campaign_id
unfolding build_update_directive directive_for
build_update_directive-campaign f now v c u n h = ground (arith, h)

-- the tables say that the device was told of the campaign, and from which version
abbrev pub Told : Asker → ℕ → List DeviceStatus → Type 0
Told a campaign_id statuses =
    (s : DeviceStatus) × (lookup campaign_id a.client_uuid statuses ≡ some s)
    × (s.status ≡ notified)
    × (s.version_before ≡ nonempty a.plugin_version)

-- an active campaign for plugins' updates that is meant for the device
abbrev pub MeantFor : Asker → ℕ → List CampaignRow → Type 0
MeantFor a campaign_id campaigns =
    (c : CampaignRow) × Memᴰ c campaigns
    × (campaign_id ≡ c.id)
    × (c.status ≡ active)
    × (c.kind ≡ plugin_update)
    × (cohort_matches a.device_cohort_ids c.target_cohort_id ≡ true)

note_device-Told :
    (fails : Fails) (a : Asker) (d : Directive) (c : Campaign) (statuses : List DeviceStatus)
    → fails.status ≡ false
    → a.client_uuid ≢ ""
    → Told a c.campaign_id (note_device fails a (some d) (some c) statuses)
unfolding upsert_campaign_device_status
note_device-Told fails a d c statuses f named =
    let (s, found, from) =
      lookup-upsert_self (noticed_row c.campaign_id a.client_uuid a.email a.plugin_version)
        (noticed a.plugin_version) (λ s. (refl, refl)) statuses in
    let (status, version) = told from in (s, rw (f, identified) found, status, version)
  where
    told :
        {s : DeviceStatus}
        → (s ≡ noticed_row c.campaign_id a.client_uuid a.email a.plugin_version)
          ⊎ ((old : DeviceStatus) × (s ≡ noticed a.plugin_version old))
        → (s.status ≡ notified) × (s.version_before ≡ nonempty a.plugin_version)
    told (inl e) = rw e (refl, refl)
    told (inr (old, e)) = rw e (refl, refl)

    identified : (a.client_uuid == "") ≡ false
    identified = elim (Bool-cases (a.client_uuid == "")) [
      | inl e ↦ absurd (named ((string_eq.beq_iff a.client_uuid "").0 e))
      | inr e ↦ e
    ]

active_campaign-MeantFor :
    (fails : Fails) (a : Asker) (t : Tables) {x : Campaign}
    → active_campaign fails a t ≡ some x
    → MeantFor a x.campaign_id t.campaigns
active_campaign-MeantFor fails a t {x} q = elim (Bool-cases fails.campaign) [
  | inl e ↦ absurd (none-ne-some (rw e at q))
  | inr e ↦
      let (c, m, i, s, k, o, host, newest) =
        resolve_active_campaign_newest a.device_cohort_ids (or_misc a.device_type)
          a.platform_version t.campaigns t.artifacts (rw e at q) in
      (c, m, i, s, k, o)
]

-- A device that is served a directive, in an answer whose statements work, is served that of an
-- active campaign for plugins' updates that is meant for it, and the tables say that the device was
-- told, and from which version.
pub enrich-notifies :
    (device_hash : String → ℕ) (now : ℕ) (fails : Fails) (a : Asker)
    (template_toggles : Dict String Bool) (t : Tables) {d : Directive}
    → fails.status ≡ false
    → a.client_uuid ≢ ""
    → (enrich device_hash now fails a template_toggles t).update_directive ≡ some d
    → MeantFor a d.campaign_id t.campaigns
      × Told a d.campaign_id (enrich device_hash now fails a template_toggles t).statuses
unfolding enrich build_update_directive
enrich-notifies f now fails a toggles t {d} works named h = elim (Bool-cases fails.connection) [
  | inl e ↦ absurd (none-ne-some (rw e at h))
  | inr e ↦ rw e (by_campaign (active_campaign fails a t) refl (rw e at h))
]
  where
    by_campaign :
        (o : Option Campaign)
        → active_campaign fails a t ≡ o
        → build_update_directive f now a.plugin_version o a.client_uuid a.device_name ≡ some d
        → MeantFor a d.campaign_id t.campaigns
          × Told a d.campaign_id (
              note_device fails a
                (build_update_directive f now a.plugin_version o a.client_uuid a.device_name)
                o
                t.statuses)
    by_campaign none q b = absurd (none-ne-some b)
    by_campaign (some x) q b =
        let same =
          build_update_directive-campaign f now a.plugin_version x a.client_uuid a.device_name b in
        rw (b, same)
          (
            active_campaign-MeantFor fails a t q,
            note_device-Told fails a d x t.statuses works named,
          )
