-- ===== src/Campaigns/Tables.antt =====
-- The tables `campaigns`, `artifacts` and `campaign_device_status` of db/schema.sql, and
-- `_resolve_active_campaign` of app/main.py.
use device_management.Version.{version_lt}
use device_management.Campaigns.{Stage, Campaign, text_of}
use device_management.Prelude.{
  ℕ, String, Bool, true, false, not, ◌&&◌, ◌||◌, Option, none, some, List, [], ◌∷◌, ltb,
  if◌then◌else◌, any, select, ◌==◌, nat_eq, string_eq, pair_eq,
}

pub data Kind : Type 0 where
  plugin_update : Kind
  -- another text in the column `type`
  other : String → Kind

abbrev pub kind_beq : Kind → Kind → Bool
kind_beq plugin_update plugin_update = true
kind_beq (other s) (other t) = s == t
kind_beq _ _ = false

pub data CampaignStatus : Type 0 where
  draft active paused completed rolled_back : CampaignStatus

abbrev pub is_active : CampaignStatus → Bool
is_active active = true
is_active _ = false

-- A NULL deadline, urgency or configuration is `none`.
pub record CampaignRow : Type 0 where
  pub id : ℕ
  pub kind : Kind
  pub status : CampaignStatus
  pub urgency : Option String
  pub deadline_at : Option String
  pub target_cohort_id : Option ℕ
  pub artifact_id : Option ℕ
  pub rollback_artifact_id : Option ℕ
  pub rollout_config : Option (List Stage)
  pub created_at : ℕ
  pub plugin_id : Option ℕ

pub record Artifact : Type 0 where
  pub id : ℕ
  pub device_type : String
  pub version : String
  pub s3_path : String
  pub checksum : Option String
  pub changelog_url : Option String
  pub min_host_version : Option String
  pub max_host_version : Option String

-- `target_cohort_id IS NULL OR target_cohort_id = ANY(ids)`
abbrev pub cohort_matches : List ℕ → Option ℕ → Bool
cohort_matches ids none = true
cohort_matches ids (some c) = any (λ (i : ℕ). i == c) ids

unfoldable pub candidate : List ℕ → CampaignRow → Bool
candidate ids c =
    is_active c.status && kind_beq c.kind plugin_update && cohort_matches ids c.target_cohort_id

-- `ORDER BY created_at DESC LIMIT 1`
abbrev pub later_of : CampaignRow → Option CampaignRow → CampaignRow
later_of c none = c
later_of c (some b) = if ltb c.created_at b.created_at then b else c

unfoldable pub newest : List CampaignRow → Option CampaignRow
newest [] = none
newest (c ∷ cs) = some (later_of c (newest cs))

-- `LEFT JOIN artifacts a ON a.id = …`
abbrev pub find_artifact : ℕ → List Artifact → Option Artifact
find_artifact i [] = none
find_artifact i (a ∷ as') = if a.id == i then some a else find_artifact i as'

unfoldable pub left_join : Option ℕ → List Artifact → Option Artifact
left_join none artifacts = none
left_join (some i) artifacts = find_artifact i artifacts

-- the version of the platform against the range of the artifact
unfoldable pub host_accepted : String → Option Artifact → Bool
host_accepted platform_version none = true
host_accepted platform_version (some a) =
    let low = text_of a.min_host_version in
    let high = text_of a.max_host_version in
    if platform_version == ""
    then true
    else if not (low == "") && version_lt platform_version low
    then false
    else high == "" || version_lt platform_version high

abbrev pub field {ℓ} : {A : Type ℓ} → (Artifact → A) → A → Option Artifact → A
field f d none = d
field f d (some a) = f a

unfoldable pub campaign_of : CampaignRow → Option Artifact → Option Artifact → Campaign
campaign_of c a ra = record {
  campaign_id = c.id;
  urgency = if text_of c.urgency == "" then "normal" else text_of c.urgency;
  deadline_iso = c.deadline_at;
  artifact_version = field (λ x. x.version) "" a;
  artifact_s3_path = field (λ x. x.s3_path) "" a;
  artifact_checksum = field (λ x. text_of x.checksum) "" a;
  changelog_url = field (λ x. x.changelog_url) none a;
  rollback_s3_path = field (λ x. some x.s3_path) none ra;
  rollback_version = field (λ x. x.version) "" ra;
  rollback_checksum = field (λ x. text_of x.checksum) "" ra;
  rollout_config = c.rollout_config;
  campaign_created_at = some c.created_at;
}

-- what the function makes of the row that the query returned
unfoldable pub served : String → List Artifact → Option CampaignRow → Option Campaign
unfolding campaign_of host_accepted left_join
served platform_version artifacts none = none
served platform_version artifacts (some c) =
    let a = left_join c.artifact_id artifacts in
    if host_accepted platform_version a
    then some (campaign_of c a (left_join c.rollback_artifact_id artifacts))
    else none

-- `device_type` is a parameter of the function, and its query does not read it.
unfoldable pub resolve_active_campaign :
    List ℕ → String → String → List CampaignRow → List Artifact → Option Campaign
unfolding served newest candidate
resolve_active_campaign device_cohort_ids device_type platform_version campaigns artifacts =
    served platform_version artifacts (newest (select (candidate device_cohort_ids) campaigns))
