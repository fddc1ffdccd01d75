-- ===== src/Examples/QueueRuns.antt =====
-- A queue with one telemetry job: enqueued, claimed, and claimed again.
use device_management.Json.{obj, end}
use device_management.Queue.{Row, Db, QueueJob, PostgresQueue, pending, new}
use device_management.Queue.Enqueue.{enqueue}
use device_management.Queue.Claim.{
  Runtime, claim_jobs, claim_row, chosen, claimable, lock_expired, order_by, insert_by, earlier,
}
use device_management.Queue.Settle.{holds}
use device_management.Queue.Rows.{UniqueIds}
use device_management.Queue.Dedupe.{Refused, Added, Deduped, enqueue_outcome}
use device_management.Queue.Exclusion.{claim_jobs-takes, claim_jobs-disjoint}
use device_management.Prelude.{
  ap, ℕ, ◌+◌, ◌≡◌, refl, sym, ◌∙◌, ◌≢◌, ◌⊎◌, Bool, true, false, none, some, [], ◌∷◌, Memᴰ, arith,
  nat_eq, string_eq, pair_eq, pos, list_eq,
}

abbrev pub py : Runtime
py = record { loads = λ s. none; str_of = λ v. "" }

abbrev pub queue : PostgresQueue
queue = new (pos 60) (pos 3) (pos 5) (pos 300) (pos 1000000)

abbrev pub waiting : Row
waiting = record {
  id = 7;
  created_at = 10;
  updated_at = 10;
  topic = "telemetry";
  payload = obj end;
  status = pending;
  attempts = 0;
  max_attempts = 3;
  next_attempt_at = 10;
  locked_at = none;
  lock_owner = none;
  dedupe_key = some "k";
  completed_at = none;
  last_error = none;
}

abbrev pub one_job : Db
one_job = record { jobs = waiting ∷ []; dead_letters = [] }

abbrev no_skip : ℕ → Bool
no_skip id = false

waiting_taken : (j : QueueJob) × Memᴰ j (claim_jobs py queue 20 "w1" no_skip (pos 5) one_job).1
unfolding claim_jobs claim_row chosen claimable lock_expired order_by insert_by
waiting_taken = (_, Memᴰ.head refl)

waiting_unique : UniqueIds one_job.jobs
waiting_unique r s (Memᴰ.head p) (Memᴰ.head q) e = p ∙ sym q
waiting_unique r s (Memᴰ.head p) (Memᴰ.tail m) e = elim m [ ]
waiting_unique r s (Memᴰ.tail m) n e = elim m [ ]

claim_jobs-takes_example :
    (r s : Row) × Memᴰ r one_job.jobs
    × (claimable queue 20 no_skip r ≡ true)
    × Memᴰ s (claim_jobs py queue 20 "w1" no_skip (pos 5) one_job).0.jobs
    × (holds waiting_taken.0.id "w1" s ≡ true)
    × (waiting_taken.0.id ≡ r.id)
    × (waiting_taken.0.attempts ≡ r.attempts + 1)
    × (s.attempts ≡ waiting_taken.0.attempts)
claim_jobs-takes_example =
    claim_jobs-takes py queue 20 "w1" no_skip (pos 5) one_job waiting_unique waiting_taken.0
      waiting_taken.1

abbrev later : Row
later = record waiting { id = 8; next_attempt_at = 15; dedupe_key = some "l" }

abbrev two_jobs : Db
two_jobs = record { jobs = waiting ∷ later ∷ []; dead_letters = [] }

two_unique : UniqueIds two_jobs.jobs
two_unique r s (Memᴰ.head p) (Memᴰ.head q) e = p ∙ sym q
two_unique r s (Memᴰ.head p) (Memᴰ.tail (Memᴰ.head q)) e =
    absurd (ground (arith, sym (ap (λ (x : Row). x.id) p) ∙ e ∙ ap (λ (x : Row). x.id) q))
two_unique r s (Memᴰ.head p) (Memᴰ.tail (Memᴰ.tail m)) e = elim m [ ]
two_unique r s (Memᴰ.tail (Memᴰ.head p)) (Memᴰ.head q) e =
    absurd (ground (arith, sym (ap (λ (x : Row). x.id) p) ∙ e ∙ ap (λ (x : Row). x.id) q))
two_unique r s (Memᴰ.tail (Memᴰ.head p)) (Memᴰ.tail (Memᴰ.head q)) e = p ∙ sym q
two_unique r s (Memᴰ.tail (Memᴰ.head p)) (Memᴰ.tail (Memᴰ.tail m)) e = elim m [ ]
two_unique r s (Memᴰ.tail (Memᴰ.tail m)) n e = elim m [ ]

first_taken : (j : QueueJob) × Memᴰ j (claim_jobs py queue 20 "w1" no_skip (pos 1) two_jobs).1
unfolding claim_jobs claim_row chosen claimable lock_expired order_by insert_by earlier
first_taken = (_, Memᴰ.head refl)

second_taken :
    (k : QueueJob) × Memᴰ k
      (claim_jobs py queue 30 "w2" no_skip
        (pos 5)
        (claim_jobs py queue 20 "w1" no_skip (pos 1) two_jobs).0).1
unfolding claim_jobs claim_row chosen claimable lock_expired order_by insert_by earlier
second_taken = (_, Memᴰ.head refl)

claim_jobs-disjoint_example : first_taken.0.id ≢ second_taken.0.id
claim_jobs-disjoint_example =
    claim_jobs-disjoint py queue 20 30 "w1" "w2" no_skip no_skip (pos 1) (pos 5) two_jobs two_unique
      first_taken.0 second_taken.0 first_taken.1 second_taken.1

enqueue_outcome_example :
    let r = enqueue queue 30 8 "telemetry" (obj end) (some "k") (pos 0) none one_job in
    Refused queue 30 8 "telemetry" (obj end) (some "k") (pos 0) none one_job r.0 r.1
    ⊎ Added queue 30 8 "telemetry" (obj end) (some "k") (pos 0) none one_job r.0 r.1
    ⊎ Deduped queue 30 8 "telemetry" (obj end) (some "k") (pos 0) none one_job r.0 r.1
enqueue_outcome_example =
    enqueue_outcome queue 30 8 "telemetry" (obj end) (some "k") (pos 0) none one_job
