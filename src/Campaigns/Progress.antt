-- ===== src/Campaigns/Progress.antt =====
-- The devices of a campaign: `_upsert_campaign_device_status` and `/update/status` in app/main.py.
pub mod Reports
use device_management.Campaigns.{Stage, stage_percent, get_current_rollout_percent}
use device_management.Prelude.{
  ℕ, String, refl, Bool, true, false, not, ◌&&◌, ◌||◌, Option, none, some, List, [], ◌∷◌, arith,
  if◌then◌else◌, ◌==◌, nat_eq, string_eq, pair_eq,
}

pub data DeviceState : Type 0 where
  pending notified updated failed rolled_back : DeviceState

pub record DeviceStatus : Type 0 where
  pub campaign_id : ℕ
  pub client_uuid : String
  pub email : Option String
  pub status : DeviceState
  pub version_before : Option String
  pub version_after : Option String
  pub error_message : Option String

-- `text or None`
abbrev pub nonempty : String → Option String
nonempty s = if s == "" then none else some s

abbrev pub is_for : ℕ → String → DeviceStatus → Bool
is_for campaign_id client_uuid s = s.campaign_id == campaign_id && s.client_uuid == client_uuid

-- `INSERT … ON CONFLICT (campaign_id, client_uuid) DO UPDATE`
unfoldable pub upsert :
    DeviceStatus → (DeviceStatus → DeviceStatus) → List DeviceStatus → List DeviceStatus
upsert new change [] = new ∷ []
upsert new change (s ∷ ss) =
    if is_for new.campaign_id new.client_uuid s then change s ∷ ss else s ∷ upsert new change ss

abbrev pub noticed_row : ℕ → String → String → String → DeviceStatus
noticed_row campaign_id client_uuid email version_before = record {
  campaign_id = campaign_id;
  client_uuid = client_uuid;
  email = nonempty email;
  status = notified;
  version_before = nonempty version_before;
  version_after = none;
  error_message = none;
}

abbrev pub noticed : String → DeviceStatus → DeviceStatus
noticed version_before s = record s { status = notified; version_before = nonempty version_before }

unfoldable pub upsert_campaign_device_status :
    ℕ → String → String → String → List DeviceStatus → List DeviceStatus
unfolding upsert
upsert_campaign_device_status campaign_id client_uuid email version_before =
    upsert (noticed_row campaign_id client_uuid email version_before) (noticed version_before)

-- The body of a report, with the defaults of `body.get`.
pub record Report : Type 0 where
  pub campaign_id : ℕ
  pub client_uuid : String
  pub status : String
  pub version_before : String
  pub version_after : String
  pub error_detail : String

-- Only an installation counts as an update; any other status is a failure.
abbrev pub state_of : String → DeviceState
state_of s = if s == "installed" then updated else failed

report_row : Report → DeviceStatus
report_row r = record {
  campaign_id = r.campaign_id;
  client_uuid = r.client_uuid;
  email = none;
  status = state_of r.status;
  version_before = some r.version_before;
  version_after = nonempty r.version_after;
  error_message = nonempty r.error_detail;
}

report_change : Report → DeviceStatus → DeviceStatus
report_change r s = record s {
  status = state_of r.status;
  version_after = nonempty r.version_after;
  error_message = nonempty r.error_detail;
}

-- `_update_campaign_device_status_sync`: without a database URL it does nothing, and an exception of
-- the database, as on a campaign that is missing, is only logged.
pub data Write : Type 0 where
  no_database database_error works : Write

unfoldable pub store_report : Write → Report → List DeviceStatus → List DeviceStatus
unfolding upsert report_row report_change
store_report works r statuses = upsert (report_row r) (report_change r) statuses
store_report no_database r statuses = statuses
store_report database_error r statuses = statuses

pub data ReportReply : Type 0 where
  unauthorized invalid_json invalid_status client_uuid_required client_uuid_mismatch : ReportReply
  accepted : String → ReportReply

abbrev pub allowed_status : String → Bool
allowed_status s =
    s == "installed"
    || s == "failed"
    || s == "checksum_error"
    || s == "download_error"
    || s == "deferred"

-- the client that the relay credentials name: the report must be its own
abbrev pub is_own : Option String → String → Bool
is_own none client_uuid = true
is_own (some authed) client_uuid = authed == "" || client_uuid == authed

store_checked : Write → Option String → Report → List DeviceStatus → List DeviceStatus × ReportReply
unfolding store_report
store_checked write authed r statuses =
    if not (allowed_status r.status)
    then (statuses, invalid_status)
    else if r.client_uuid == ""
    then (statuses, client_uuid_required)
    else if not (is_own authed r.client_uuid)
    then (statuses, client_uuid_mismatch)
    else (store_report write r statuses, accepted r.status)

-- `POST /update/status`. `relay` is `none` where relay credentials are not enabled, and else the
-- result of their check: the client, or none. A body that is no JSON is `none`.
unfoldable pub report_update_status :
    Write
    → Option (Option String)
    → Option Report
    → List DeviceStatus
    → List DeviceStatus × ReportReply
unfolding store_checked
report_update_status write (some none) body statuses = (statuses, unauthorized)
report_update_status write relay none statuses = (statuses, invalid_json)
report_update_status write none (some r) statuses = store_checked write none r statuses
report_update_status write (some (some authed)) (some r) statuses =
    store_checked write (some authed) r statuses
