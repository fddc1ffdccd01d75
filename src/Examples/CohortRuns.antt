-- ===== src/Examples/CohortRuns.antt =====
-- A device of a percentage, whose group of Keycloak does not count.
use device_management.Cohorts.{percentage, keycloak_group, Cohort, Device, resolve_device_cohorts}
use device_management.Cohorts.Groups.{NoEmails, NoEmails-empty, resolve_device_cohorts-no_groups}
use device_management.Prelude.{
  ◌≡◌, Bool, false, List, [], ◌∷◌, length, ◌==◌, nat_eq, string_eq, pair_eq, pos, list_eq, Str,
  codes,
}

abbrev cohorts : List Cohort
cohorts =
    record { id = 1; rule = percentage (pos 50) }
    ∷ record { id = 2; rule = keycloak_group (codes "staff") }
    ∷ []

abbrev device : Device
device = record { email = codes "a@b"; client_uuid = codes "u1" }

abbrev matches : Str → Str → Bool
matches pattern s = pattern == s

resolve_device_cohorts-no_groups_example :
    let r = resolve_device_cohorts length matches 300 false [] 1000 device cohorts [] in
    (r.0 ≡ 1 ∷ []) × NoEmails r.1
unfolding resolve_device_cohorts
resolve_device_cohorts-no_groups_example =
    resolve_device_cohorts-no_groups length matches 300 false [] 1000 device cohorts []
      NoEmails-empty
