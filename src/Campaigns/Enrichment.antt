-- ===== src/Campaigns/Enrichment.antt =====
-- What `get_config` of app/main.py adds to a configuration for the device that asks: the features,
-- the directive of a campaign and the note that the device was told. The statement on
-- `plugin_installations` is left out, and the cohorts of the device are given.
pub mod Notified
pub mod Layers
use device_management.Prelude.Dict.{Dict}
use device_management.Flags.{Flag, Override, resolve_feature_flags, resolve_forced_flags, update}
use device_management.Campaigns.{Campaign, Directive, build_update_directive}
use device_management.Campaigns.Tables.{CampaignRow, Artifact, resolve_active_campaign}
use device_management.Campaigns.Progress.{DeviceStatus, upsert_campaign_device_status}
use device_management.Prelude.{
  ℕ, String, refl, Bool, true, false, not, ◌&&◌, Option, none, some, List, [], ◌∷◌, arith,
  if◌then◌else◌, ◌==◌, nat_eq, string_eq, pair_eq, list_eq,
}

pub record Tables : Type 0 where
  pub flags : List Flag
  pub overrides : List Override
  pub campaigns : List CampaignRow
  pub artifacts : List Artifact
  pub statuses : List DeviceStatus

-- Which statements fail; each is caught on its own. `connection` says that none can be made.
pub record Fails : Type 0 where
  pub connection : Bool
  pub overrides : Bool
  pub forced : Bool
  pub campaign : Bool
  pub status : Bool

-- the headers of the request, and the device and cohorts that were resolved
pub record Asker : Type 0 where
  pub plugin_version : String
  pub platform_version : String
  pub client_uuid : String
  pub email : String
  pub device_name : String
  pub device_type : String
  pub device_cohort_ids : List ℕ

pub record Enriched : Type 0 where
  pub update_directive : Option Directive
  pub features : Dict String Bool
  pub statuses : List DeviceStatus

abbrev pub or_misc : String → String
or_misc s = if s == "" then "misc" else s

abbrev pub active_campaign : Fails → Asker → Tables → Option Campaign
active_campaign fails a t =
    if fails.campaign
    then none
    else resolve_active_campaign a.device_cohort_ids (or_misc a.device_type) a.platform_version
        t.campaigns t.artifacts

-- the upsert for a directive that is served
abbrev pub note_device :
    Fails → Asker → Option Directive → Option Campaign → List DeviceStatus → List DeviceStatus
note_device fails a (some d) (some c) statuses =
    if not (a.client_uuid == "") && not fails.status
    then upsert_campaign_device_status c.campaign_id a.client_uuid a.email a.plugin_version statuses
    else statuses
note_device fails a _ _ statuses = statuses

abbrev pub caught : Bool → Dict String Bool → Dict String Bool
caught fails values = if fails then [] else values

unfoldable pub enrich : (String → ℕ) → ℕ → Fails → Asker → Dict String Bool → Tables → Enriched
unfolding resolve_feature_flags resolve_forced_flags update build_update_directive
    resolve_active_campaign upsert_campaign_device_status
enrich device_hash now fails a template_toggles t =
    let campaign = active_campaign fails a t in
    let directive =
      build_update_directive device_hash now a.plugin_version campaign a.client_uuid
        a.device_name in
    if fails.connection
    then record { update_directive = none; features = template_toggles; statuses = t.statuses }
    else record {
      update_directive = directive;
      features =
          update
            (update template_toggles
              (caught fails.forced (resolve_forced_flags a.plugin_version a.device_name t.flags)))
            (caught fails.overrides (
              resolve_feature_flags a.device_cohort_ids a.plugin_version a.device_name t.flags
                t.overrides));
      statuses = note_device fails a directive campaign t.statuses;
    }
