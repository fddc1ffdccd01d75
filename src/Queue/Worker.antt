-- ===== src/Queue/Worker.antt =====
-- `_run_queue_worker_loop` of app/main.py. A worker holds the jobs of its last claim; between two
-- statements of one worker, others and the clients that enqueue may run.
pub mod Ids
mod Kept
pub mod Invariant
mod Claims
mod Locks
mod Backed
mod Settles
pub mod Safety
pub mod Stuck
mod Rowwise
pub mod DeadLetters
use device_management.Json.{Json}
use device_management.Queue.{Db, QueueJob, Error, Result, ok, raised, PostgresQueue, Schema, Row}
use device_management.Queue.Enqueue.{enqueue}
use device_management.Queue.Claim.{Runtime, claim_jobs}
use device_management.Queue.Settle.{ack, retry, move_to_dead_letter}
use device_management.Prelude.{
  ℕ, ◌+◌, String, ◌≡◌, refl, ◌≢◌, Bool, true, false, Option, none, some, List, [], ◌∷◌, arith, leb,
  if◌then◌else◌, Each, ◌==◌, nat_eq, string_eq, pair_eq, ℤ,
}

pub record World : Type 0 where
  pub db : Db
  pub now : ℕ
  -- the jobs that each worker has claimed and not yet processed
  pub held : String → List QueueJob

-- What may differ between deployments.
pub record Deployment : Type 0 where
  pub py : Runtime
  pub queue : PostgresQueue
  pub schema : Schema

-- an exception that leaves the `except` clause ends the loop
abbrev pub after_letter : Db × Result Bool → Db × Bool
after_letter (db, ok b) = (db, true)
after_letter (db, raised e) = (db, false)

-- The body of the loop for one job. `failure` is the text of the exception that
-- `_process_queue_job` raised, if it raised one; the result says whether the loop goes on.
unfoldable pub settle : Deployment → ℕ → ℕ → String → QueueJob → Option (List ℕ) → Db → Db × Bool
settle d now sample worker_id job none db = ((ack now job.id worker_id db).0, true)
settle d now sample worker_id job (some error_text) db =
    if leb job.max_attempts job.attempts
    then after_letter (move_to_dead_letter d.schema now job worker_id error_text db)
    else ((retry d.queue now sample job.id worker_id job.attempts error_text db).0, true)

abbrev pub hold : String → List QueueJob → (String → List QueueJob) → String → List QueueJob
hold worker_id jobs held v = if v == worker_id then jobs else held v

-- `jobs = queue.claim_jobs(…)`, which a worker calls when it has none left
unfoldable pub claim_next : Deployment → String → (ℕ → Bool) → ℤ → World → World
claim_next d worker_id skip batch_size s =
    let (db, jobs) = claim_jobs d.py d.queue s.now worker_id skip batch_size s.db in
    record s { db = db; held = hold worker_id jobs s.held }

-- one round of `for job in jobs`
unfoldable pub work_next :
    Deployment → ℕ → String → QueueJob → List QueueJob → Option (List ℕ) → World → World
work_next d sample worker_id job rest failure s =
    let (db, goes_on) = settle d s.now sample worker_id job failure s.db in
    record s { db = db; held = hold worker_id (if goes_on then rest else []) s.held }

pub data Step (d : Deployment) (s : World) : World → Type 0 where
  tick : (n : ℕ) → Step d s (record s { now = s.now + n })
  client :
      (id : ℕ) (topic : String) (payload : Json) (dedupe_key : Option String) (run_after : ℤ)
      (max_attempts : Option ℤ)
      → Each (λ (r : Row). r.id ≢ id) s.db.jobs
      → Step d s (record s {
        db = (enqueue d.queue s.now id topic payload dedupe_key run_after max_attempts s.db).0;
      })
  claims :
      (worker_id : String) (skip : ℕ → Bool) (batch_size : ℤ)
      → s.held worker_id ≡ []
      → Step d s (claim_next d worker_id skip batch_size s)
  works :
      (sample : ℕ) (worker_id : String) (job : QueueJob) (rest : List QueueJob)
      (failure : Option (List ℕ))
      → s.held worker_id ≡ job ∷ rest
      → Step d s (work_next d sample worker_id job rest failure s)
  -- a stop signal between two jobs, or the loss of the process
  stops : (worker_id : String) → Step d s (record s { held = hold worker_id [] s.held })

pub data Reach (d : Deployment) (s : World) : World → Type 0 where
  here : Reach d s s
  next : {t u : World} → Reach d s t → Step d t u → Reach d s u

abbrev pub start : World
start = record { db = record { jobs = []; dead_letters = [] }; now = 0; held = λ w. [] }
