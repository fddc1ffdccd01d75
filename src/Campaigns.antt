-- ===== src/Campaigns.antt =====
-- The campaigns of app/main.py: the choice of the campaign for a device, its rollout in stages,
-- and the directive that `/config` answers. Times are microseconds; the numbers of a rollout are
-- natural numbers.
pub mod Rollout
pub mod Directives
pub mod Tables
pub mod Choice
pub mod Actions
pub mod Lifecycle
pub mod Progress
pub mod Enrichment
use Prim.Native.Char.{Char, code}
use Prim.Native.String.{◌++◌ as concat}
use device_management.Version.{version_lt}
use device_management.Prelude.{
  ℕ, ◌+◌, ◌*◌, ◌/◌, ◌%◌, String, refl, Bool, true, false, not, ◌&&◌, ◌||◌, Option, none, some, List,
  [], ◌∷◌, arith, ltb, if◌then◌else◌, or_else, ◌==◌, nat_eq, string_eq, pair_eq,
}

-- one hour
abbrev pub hour : ℕ
hour = 3600000000

-- A stage of a rollout: `none` is a key that is not there.
pub record Stage : Type 0 where
  pub duration_hours : Option ℕ
  pub percent : Option ℕ

abbrev pub stage_hours : Stage → ℕ
stage_hours s = or_else s.duration_hours 0

abbrev pub stage_percent : Stage → ℕ
stage_percent s = or_else s.percent 100

-- The loop of `_get_current_rollout_percent`; `start` and `now` are times, and `elapsed_hours <
-- cumulative_hours` is read as `now < start + cumulative`.
unfoldable pub current_percent : ℕ → ℕ → ℕ → List Stage → ℕ
current_percent now start cumulative [] = 100
current_percent now start cumulative (s ∷ ss) =
    let hours = cumulative + stage_hours s in
    let rest = current_percent now start hours ss in
    if ltb now (start + hours * hour) || stage_percent s == 100 then stage_percent s else rest

-- A start that is missing, or that is no time, counts as a rollout that is over.
unfoldable pub get_current_rollout_percent : ℕ → Option ℕ → List Stage → ℕ
unfolding current_percent
get_current_rollout_percent now none stages = 100
get_current_rollout_percent now (some start) stages = current_percent now start 0 stages

-- The dictionary that `_resolve_active_campaign` returns; `rollout_config` is its list of stages.
pub record Campaign : Type 0 where
  pub campaign_id : ℕ
  pub urgency : String
  pub deadline_iso : Option String
  pub artifact_version : String
  pub artifact_s3_path : String
  pub artifact_checksum : String
  pub changelog_url : Option String
  pub rollback_s3_path : Option String
  pub rollback_version : String
  pub rollback_checksum : String
  pub rollout_config : Option (List Stage)
  pub campaign_created_at : Option ℕ

pub data Action : Type 0 where
  update rollback : Action

pub record Directive : Type 0 where
  pub action : Action
  pub current_version : String
  pub target_version : String
  pub artifact_url : String
  pub checksum : String
  pub urgency : String
  pub changelog_url : Option String
  pub deadline_at : Option String
  pub campaign_id : ℕ

abbrev is_slash : Char → Bool
is_slash c = code c == 47

-- `s.lstrip("/")`
abbrev lstrip_slashes : String → String
lstrip_slashes String.[] = String.[]
lstrip_slashes (String.◌∷◌ c s) =
    let rest = lstrip_slashes s in if is_slash c then rest else String.◌∷◌ c s

unfoldable pub artifact_url : String → String → String
artifact_url device_name s3_path =
    if device_name == ""
    then concat "/binaries/" (lstrip_slashes s3_path)
    else concat "/catalog/" (concat device_name "/download")

-- The gate of the rollout, for a hash of the device and the stages of `rollout_config`.
unfoldable pub stage_reached : ℕ → ℕ → Option ℕ → Option (List Stage) → Bool
unfolding get_current_rollout_percent
stage_reached hash now start none = true
stage_reached hash now start (some []) = true
stage_reached hash now start (some (s ∷ ss)) =
    let percent = get_current_rollout_percent now start (s ∷ ss) in
    if ltb percent 100 then ltb (hash % 100) percent else true

-- Whether a device has its turn in the rollout. `device_hash` is the number that the first 8 digits
-- of the MD5 of the UUID stand for.
unfoldable pub eligible : (String → ℕ) → ℕ → Campaign → String → Bool
unfolding stage_reached
eligible device_hash now campaign client_uuid =
    if client_uuid == ""
    then true
    else stage_reached (device_hash client_uuid) now campaign.campaign_created_at
        campaign.rollout_config

-- a version that a plugin does not know of itself
abbrev pub unknown_version : String → Bool
unknown_version v = v == "" || v == "unknown" || v == "0"

abbrev pub text_of : Option String → String
text_of o = or_else o ""

unfoldable pub update_directive : Campaign → String → String → Directive
unfolding artifact_url
update_directive c plugin_version device_name = record {
  action = update;
  current_version = plugin_version;
  target_version = c.artifact_version;
  artifact_url = artifact_url device_name c.artifact_s3_path;
  checksum = c.artifact_checksum;
  urgency = c.urgency;
  changelog_url = c.changelog_url;
  deadline_at = c.deadline_iso;
  campaign_id = c.campaign_id;
}

unfoldable pub rollback_directive : Campaign → String → String → Directive
unfolding artifact_url
rollback_directive c plugin_version device_name = record {
  action = rollback;
  current_version = plugin_version;
  target_version = c.rollback_version;
  artifact_url = artifact_url device_name (text_of c.rollback_s3_path);
  checksum = c.rollback_checksum;
  urgency = c.urgency;
  changelog_url = c.changelog_url;
  deadline_at = c.deadline_iso;
  campaign_id = c.campaign_id;
}

abbrev pub has_rollback : Campaign → Bool
has_rollback c = not (text_of c.rollback_s3_path == "") && not (c.rollback_version == "")

unfoldable pub directive_for :
    (String → ℕ) → ℕ → String → Campaign → String → String → Option Directive
unfolding eligible update_directive rollback_directive
directive_for device_hash now plugin_version c client_uuid device_name =
    if c.artifact_version == "" || plugin_version == c.artifact_version
    then none
    else if not (eligible device_hash now c client_uuid)
    then none
    else if version_lt plugin_version c.artifact_version
    then some (update_directive c plugin_version device_name)
    else if has_rollback c
    then some (rollback_directive c plugin_version device_name)
    else none

unfoldable pub build_update_directive :
    (String → ℕ) → ℕ → String → Option Campaign → String → String → Option Directive
unfolding directive_for
build_update_directive device_hash now plugin_version none client_uuid device_name = none
build_update_directive device_hash now plugin_version (some c) client_uuid device_name =
    if unknown_version plugin_version
    then none
    else directive_for device_hash now plugin_version c client_uuid device_name
