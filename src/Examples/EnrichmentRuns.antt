-- ===== src/Examples/EnrichmentRuns.antt =====
-- A device of a cohort that is told of a campaign, while the query of the forced flags fails.
use device_management.Prelude.Dict
use device_management.Prelude.Dict.{Dict}
use device_management.Version.{version_lt}
use device_management.Flags.{Flag, resolve_feature_flags}
use device_management.Campaigns.{Directive}
use device_management.Campaigns.Tables.{plugin_update, active, CampaignRow, Artifact}
use device_management.Campaigns.Enrichment.{Tables, Fails, Asker, enrich}
use device_management.Campaigns.Enrichment.Notified.{MeantFor, Told, enrich-notifies}
use device_management.Campaigns.Enrichment.Layers.{enrich-features}
use device_management.Prelude.{
  ℕ, String, ◌≡◌, refl, ◌≢◌, true, false, none, some, [], ◌∷◌, false-ne-true, nat_eq, string_eq,
  pair_eq, list_eq,
}

abbrev device_hash : String → ℕ
device_hash uuid = 7

abbrev row : CampaignRow
row = record {
  id = 4;
  kind = plugin_update;
  status = active;
  urgency = none;
  deadline_at = none;
  target_cohort_id = some 2;
  artifact_id = some 1;
  rollback_artifact_id = none;
  rollout_config = none;
  created_at = 5;
  plugin_id = some 1;
}

abbrev artifact : Artifact
artifact = record {
  id = 1;
  device_type = "matisse";
  version = "1.2";
  s3_path = "p.xpi";
  checksum = none;
  changelog_url = none;
  min_host_version = none;
  max_host_version = none;
}

abbrev flag : Flag
flag = record {
  id = 1;
  name = "chat";
  plugin_slug = "mirai";
  default_value = some true;
  deprecated = false;
  min_plugin_version = none;
}

abbrev tables : Tables
tables = record {
  flags = flag ∷ [];
  overrides =
      record { feature_id = 1; cohort_id = 2; value = false; min_plugin_version = none } ∷ [];
  campaigns = row ∷ [];
  artifacts = artifact ∷ [];
  statuses = [];
}

abbrev fails : Fails
fails = record {
  connection = false;
  overrides = false;
  forced = true;
  campaign = false;
  status = false;
}

abbrev asker : Asker
asker = record {
  plugin_version = "1.0";
  platform_version = "";
  client_uuid = "u1";
  email = "a@b";
  device_name = "mirai";
  device_type = "matisse";
  device_cohort_ids = 2 ∷ [];
}

directive :
    (d : Directive) × ((enrich device_hash 10 fails asker [] tables).update_directive ≡ some d)
unfolding enrich version_lt
directive = (_, refl)

named : asker.client_uuid ≢ ""
named e = false-ne-true ((string_eq.beq_iff asker.client_uuid "").1 e)

enrich-notifies_example :
    MeantFor asker directive.0.campaign_id (row ∷ [])
    × Told asker directive.0.campaign_id (enrich device_hash 10 fails asker [] tables).statuses
enrich-notifies_example =
    enrich-notifies device_hash 10 fails asker [] tables {d = directive.0} refl named directive.1

enrich-features_example :
    Dict.get (enrich device_hash 10 fails asker [] tables).features "chat" ≡ some false
unfolding Dict.get Dict.put resolve_feature_flags
enrich-features_example = enrich-features device_hash 10 fails asker [] tables "chat"
