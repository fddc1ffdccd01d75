-- ===== src/Campaigns/Actions.antt =====
-- What changes the campaigns: `_create_campaign_db_work` and `_api_campaign_action` of app/main.py,
-- `create_campaign` and `update_campaign_status` of app/admin/services/campaigns.py.
use device_management.Campaigns.{Stage}
use device_management.Campaigns.Tables.{
  Kind, kind_beq, CampaignStatus, active, paused, completed, rolled_back, is_active, CampaignRow,
  Artifact, find_artifact,
}
use device_management.Prelude.{
  ℕ, String, Bool, true, false, not, ◌&&◌, Option, none, some, List, [], ◌∷◌, ◌++◌, map,
  if◌then◌else◌, or_else, any, ◌==◌, nat_eq, string_eq, pair_eq,
}

pub record Plugin : Type 0 where
  pub id : ℕ
  pub device_type : String
  pub is_active : Bool

-- The arguments of a new campaign.
pub record NewCampaign : Type 0 where
  pub kind : Kind
  pub status : CampaignStatus
  pub urgency : Option String
  pub deadline_at : Option String
  pub target_cohort_id : Option ℕ
  pub artifact_id : Option ℕ
  pub rollback_artifact_id : Option ℕ
  pub rollout_config : Option (List Stage)
  pub plugin_id : Option ℕ

-- an identifier that is given and not 0
abbrev pub given : Option ℕ → Bool
given none = false
given (some n) = not (n == 0)

abbrev find_plugin : String → List Plugin → Option ℕ
find_plugin t [] = none
find_plugin t (p ∷ ps) = if p.is_active && p.device_type == t then some p.id else find_plugin t ps

abbrev plugin_of_artifact : Option Artifact → List Plugin → Option ℕ → Option ℕ
plugin_of_artifact none plugins old = old
plugin_of_artifact (some a) plugins old = elim (find_plugin a.device_type plugins) [
  | none ↦ old
  | some p ↦ some p
]

-- The plugin of a campaign that names none is that of its artifact's device type.
unfoldable pub resolve_plugin : NewCampaign → List Artifact → List Plugin → Option ℕ
resolve_plugin b artifacts plugins =
    if not (given b.plugin_id) && given b.artifact_id
    then plugin_of_artifact (find_artifact (or_else b.artifact_id 0) artifacts) plugins b.plugin_id
    else b.plugin_id

-- `plugin IS NULL OR plugin_id = plugin OR plugin_id IS NULL`
abbrev pub overlaps : Option ℕ → Option ℕ → Bool
overlaps none q = true
overlaps (some p) none = true
overlaps (some p) (some q) = q == p

unfoldable pub complete_row : Kind → Option ℕ → CampaignRow → CampaignRow
complete_row kind plugin c =
    if is_active c.status && kind_beq c.kind kind && overlaps plugin c.plugin_id
    then record c { status = completed }
    else c

unfoldable pub new_row : ℕ → ℕ → Option ℕ → NewCampaign → CampaignRow
new_row now id plugin b = record {
  id = id;
  kind = b.kind;
  status = b.status;
  urgency = b.urgency;
  deadline_at = b.deadline_at;
  target_cohort_id = b.target_cohort_id;
  artifact_id = b.artifact_id;
  rollback_artifact_id = b.rollback_artifact_id;
  rollout_config = b.rollout_config;
  created_at = now;
  plugin_id = plugin;
}

-- `create_campaign` of the service; `id` is the number that the table draws.
unfoldable pub create_campaign : ℕ → ℕ → NewCampaign → List CampaignRow → List CampaignRow
unfolding new_row complete_row
create_campaign now id b campaigns =
    let older =
      if is_active b.status then map (complete_row b.kind b.plugin_id) campaigns else campaigns in
    older ++ new_row now id b.plugin_id b ∷ []

-- `POST /api/campaigns`, which first finds the plugin, and knows no deadline
unfoldable pub api_create_campaign :
    ℕ → ℕ → NewCampaign → List Artifact → List Plugin → List CampaignRow → List CampaignRow
unfolding create_campaign resolve_plugin
api_create_campaign now id b artifacts plugins campaigns =
    create_campaign now id
      (record b { plugin_id = resolve_plugin b artifacts plugins; deadline_at = none }) campaigns

set_status : ℕ → CampaignStatus → CampaignRow → CampaignRow
set_status id status c = if c.id == id then record c { status = status } else c

-- `UPDATE campaigns SET status = … WHERE id = … RETURNING id`; the result says whether a row was there.
unfoldable pub update_campaign_status :
    ℕ → CampaignStatus → List CampaignRow → List CampaignRow × Bool
unfolding set_status
update_campaign_status id status campaigns =
    (map (set_status id status) campaigns, any (λ (c : CampaignRow). c.id == id) campaigns)

pub data Command : Type 0 where
  start pause resume abort : Command

abbrev pub command_status : Command → CampaignStatus
command_status start = active
command_status pause = paused
command_status resume = active
command_status abort = rolled_back

pub data ActionReply : Type 0 where
  unauthorized not_found : ActionReply
  changed : ℕ → CampaignStatus → ActionReply

-- `PATCH /api/campaigns/{id}/{command}`
unfoldable pub api_campaign_action :
    Bool → ℕ → Command → List CampaignRow → List CampaignRow × ActionReply
unfolding update_campaign_status
api_campaign_action is_admin id command campaigns =
    if not is_admin
    then (campaigns, unauthorized)
    else let (campaigns', found) = update_campaign_status id (command_status command) campaigns in
      (campaigns', if found then changed id (command_status command) else not_found)
