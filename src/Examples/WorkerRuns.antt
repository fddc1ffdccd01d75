-- ===== src/Examples/WorkerRuns.antt =====
-- A worker that claims a job and is stopped, and one whose last attempt fails.
use device_management.Json.{obj, end}
use device_management.Queue.{Row, QueueJob, shipped_schema, is_dead}
use device_management.Queue.Enqueue.{enqueue, upsert, new_row}
use device_management.Queue.Claim.{
  claim_jobs, claim_row, chosen, claimable, lock_expired, order_by, insert_by,
}
use device_management.Queue.Settle.{holds}
use device_management.Queue.Rows.{RowOk, UniqueIds}
use device_management.Queue.Worker.{
  World, Deployment, settle, claim_next, hold, Reach, here, next, client, claims, stops, tick,
  start,
}
use device_management.Queue.Worker.Safety.{Reach-RowOk, Reach-Matches, Backs}
use device_management.Queue.Worker.Ids.{DistinctBy}
use device_management.Queue.Worker.Stuck.{Locked, stopped_worker-keeps_job}
use device_management.Queue.Worker.DeadLetters.{shipped_schema-never_dead}
use device_management.Examples.QueueRuns.{py, queue}
use device_management.Prelude.{
  ℕ, ◌+◌, String, ◌≡◌, refl, ◌≢◌, Bool, false, none, some, [], Memᴰ, arith, Each, nat_eq, string_eq,
  pair_eq, pos, list_eq,
}

abbrev shipped : Deployment
shipped = record { py = py; queue = queue; schema = shipped_schema }

abbrev no_skip : ℕ → Bool
no_skip id = false

abbrev enqueued : World
enqueued = record start {
  db = (enqueue queue 0 7 "telemetry" (obj end) none (pos 0) none start.db).0;
}

abbrev claimed : World
claimed = claim_next shipped "w1" no_skip (pos 5) enqueued

abbrev stopped : World
stopped = record claimed { held = hold "w1" [] claimed.held }

abbrev hours_later : World
hours_later = record stopped { now = stopped.now + 7200000000 }

Reach-enqueued : Reach shipped start enqueued
Reach-enqueued = next here (client 7 "telemetry" (obj end) none (pos 0) none (λ r m. elim m [ ]))

Reach-claimed : Reach shipped start claimed
Reach-claimed = next Reach-enqueued (claims "w1" no_skip (pos 5) refl)

Reach-stopped : Reach shipped start stopped
Reach-stopped = next Reach-claimed (stops "w1")

Reach-RowOk_example : Each RowOk claimed.db.jobs
Reach-RowOk_example = Reach-RowOk shipped {s = claimed} Reach-claimed

Reach-Matches_example :
    UniqueIds claimed.db.jobs
    × ((w : String)
        → DistinctBy (λ (j : QueueJob). j.id) (claimed.held w)
          × Each (Backs claimed.db.jobs w) (claimed.held w))
Reach-Matches_example = Reach-Matches shipped {s = claimed} Reach-claimed

stopped_Locked : Locked 7 "w1" stopped.db.jobs
unfolding enqueue upsert new_row claim_next claim_jobs claim_row chosen claimable lock_expired
    order_by insert_by holds
stopped_Locked = (_, Memᴰ.head refl, refl)

stopped_holds_none : Each (λ (j : QueueJob). j.id ≢ 7) (stopped.held "w1")
stopped_holds_none j m = elim m [ ]

stopped_worker-keeps_job_example : Locked 7 "w1" hours_later.db.jobs
stopped_worker-keeps_job_example =
    stopped_worker-keeps_job shipped 7 "w1" {s = stopped} {t = hours_later} Reach-stopped
      stopped_Locked stopped_holds_none (next here (tick 7200000000))

abbrev last_job : QueueJob
last_job = record {
  id = 7;
  topic = "telemetry";
  payload = obj end;
  attempts = 3;
  max_attempts = 3;
  dedupe_key = some "k";
  created_at = 10;
  next_attempt_at = 10;
}

shipped_schema-never_dead_example :
    Each (λ (r : Row). is_dead r.status ≡ false) claimed.db.jobs
    × (settle shipped 30 0 "w1" last_job (some []) claimed.db ≡ (claimed.db, false))
shipped_schema-never_dead_example =
    shipped_schema-never_dead shipped {s = claimed} 30 0 "w1" last_job [] refl Reach-claimed
      (omega arith)
