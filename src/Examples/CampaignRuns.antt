-- ===== src/Examples/CampaignRuns.antt =====
-- A campaign with two stages, its directives, its rows and the reports of its devices.
use device_management.Version.{parse_version_tuple, version_lt, tuple_lt}
use device_management.Campaigns.{
  Stage, hour, Campaign, update, get_current_rollout_percent, current_percent, stage_reached,
  eligible, update_directive, directive_for, build_update_directive,
}
use device_management.Campaigns.Rollout.{IsGrowing}
use device_management.Campaigns.Directives.{
  build_update_directive-stays, build_update_directive-upgrades,
}
use device_management.Campaigns.Progress.{Report, works, report_update_status}
use device_management.Campaigns.Progress.Reports.{Accepted, Rejected, report_update_status_outcome}
use device_management.Prelude.{
  ℕ, ◌*◌, String, ◌≡◌, refl, ◌≢◌, ◌⊎◌, true, Option, none, some, List, [], ◌∷◌, arith, nat_eq,
  string_eq, pair_eq, list_eq,
}

abbrev two_stages : List Stage
two_stages =
    record { duration_hours = some 24; percent = some 10 }
    ∷ record { duration_hours = some 24; percent = some 50 }
    ∷ []

abbrev device_hash : String → ℕ
device_hash uuid = 7

abbrev campaign : Campaign
campaign = record {
  campaign_id = 4;
  urgency = "normal";
  deadline_iso = none;
  artifact_version = "1.2.0";
  artifact_s3_path = "binaries/p.xpi";
  artifact_checksum = "c";
  changelog_url = none;
  rollback_s3_path = some "binaries/old.xpi";
  rollback_version = "1.1.0";
  rollback_checksum = "d";
  rollout_config = some two_stages;
  campaign_created_at = some 0;
}

growing : IsGrowing two_stages
growing = (omega arith, (omega arith, tt), (omega arith, tt, tt))

upgraded :
    build_update_directive device_hash (10 * hour) "1.0.0" (some campaign) "u1" "d"
    ≡ some (update_directive campaign "1.0.0" "d")
unfolding build_update_directive directive_for eligible stage_reached get_current_rollout_percent
    current_percent version_lt parse_version_tuple tuple_lt
upgraded = refl

build_update_directive-stays_example :
    build_update_directive device_hash (30 * hour) "1.0.0" (some campaign) "u1" "d"
    ≡ some (update_directive campaign "1.0.0" "d")
build_update_directive-stays_example =
    build_update_directive-stays device_hash (10 * hour) (30 * hour) "1.0.0" campaign "u1" "d"
      {x = update_directive campaign "1.0.0" "d"} (omega arith) growing upgraded

is_update : (update_directive campaign "1.0.0" "d").action ≡ update
unfolding update_directive
is_update = refl

build_update_directive-upgrades_example :
    (version_lt "1.0.0" (update_directive campaign "1.0.0" "d").target_version ≡ true)
    × ((later : ℕ)
        → build_update_directive device_hash later
            (update_directive campaign "1.0.0" "d").target_version
            (some campaign)
            "u1"
            "d"
          ≡ none)
build_update_directive-upgrades_example =
    build_update_directive-upgrades device_hash (10 * hour) "1.0.0" campaign "u1" "d"
      {x = update_directive campaign "1.0.0" "d"} upgraded is_update

abbrev report : Report
report = record {
  campaign_id = 4;
  client_uuid = "u1";
  status = "installed";
  version_before = "1.0.0";
  version_after = "1.2.0";
  error_detail = "";
}

abbrev relay : Option (Option String)
relay = some (some "u1")

report_update_status_outcome_example :
    let r = report_update_status works relay (some report) [] in
    Rejected report [] r.0 r.1
    ⊎ ((relay ≢ some none) × Accepted works (some "u1") report [] r.0 r.1)
report_update_status_outcome_example = report_update_status_outcome works relay report []
