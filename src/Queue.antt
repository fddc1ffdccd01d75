-- ===== src/Queue.antt =====
-- app/postgres_queue.py: the rows of the table `queue_jobs`, those of `queue_job_dead_letters`, and
-- the settings of the queue. Times are microseconds, as in PostgreSQL.
pub mod Enqueue
pub mod Claim
pub mod Settle
pub mod Stats
pub mod Delay
pub mod Rows
pub mod Dedupe
pub mod Counters
pub mod Exclusion
pub mod Worker
use device_management.Json.{Json}
use device_management.Prelude.{
  ℕ, String, refl, Bool, true, false, Option, none, some, List, [], ◌∷◌, arith, if◌then◌else◌,
  nat_eq, string_eq, pair_eq, ℤ, at_least,
}

-- one second of a PostgreSQL interval
abbrev pub second : ℕ
second = 1000000

pub data Status : Type 0 where
  pending processing done dead : Status

abbrev pub is_pending : Status → Bool
is_pending pending = true
is_pending _ = false

abbrev pub is_processing : Status → Bool
is_processing processing = true
is_processing _ = false

abbrev pub is_done : Status → Bool
is_done done = true
is_done _ = false

abbrev pub is_dead : Status → Bool
is_dead dead = true
is_dead _ = false

-- `id` is a UUID; an error text is the list of its characters.
pub record Row : Type 0 where
  pub id : ℕ
  pub created_at : ℕ
  pub updated_at : ℕ
  pub topic : String
  pub payload : Json
  pub status : Status
  pub attempts : ℕ
  pub max_attempts : ℕ
  pub next_attempt_at : ℕ
  pub locked_at : Option ℕ
  pub lock_owner : Option String
  pub dedupe_key : Option String
  pub completed_at : Option ℕ
  pub last_error : Option (List ℕ)

pub record DeadLetter : Type 0 where
  pub created_at : ℕ
  pub job_id : ℕ
  pub topic : String
  pub payload : Json
  pub dedupe_key : Option String
  pub attempts : ℕ
  pub max_attempts : ℕ
  pub last_error : List ℕ

pub record Db : Type 0 where
  pub jobs : List Row
  pub dead_letters : List DeadLetter

-- What `claim_jobs` hands to a worker.
pub record QueueJob : Type 0 where
  pub id : ℕ
  pub topic : String
  pub payload : Json
  pub attempts : ℕ
  pub max_attempts : ℕ
  pub dedupe_key : Option String
  pub created_at : ℕ
  pub next_attempt_at : ℕ

-- The exceptions that the operations raise: `ValueError`, and PostgreSQL's refusal of an
-- `ON CONFLICT` whose columns no unique index covers.
pub data Error : Type 0 where
  value_error invalid_conflict_target : Error

pub data Result {ℓ} (A : Type ℓ) : Type ℓ where
  ok : A → Result A
  raised : Error → Result A

pub record PostgresQueue : Type 0 where
  pub lock_ttl_seconds : ℕ
  pub default_max_attempts : ℕ
  pub retry_base_seconds : ℕ
  pub retry_max_seconds : ℕ
  -- in microseconds
  pub retry_jitter : ℕ

-- `__init__`; the jitter in microseconds
unfoldable pub new : ℤ → ℤ → ℤ → ℤ → ℤ → PostgresQueue
new lock_ttl_seconds default_max_attempts retry_base_seconds retry_max_seconds retry_jitter =
    let base = at_least 1 retry_base_seconds in
    record {
      lock_ttl_seconds = at_least 1 lock_ttl_seconds;
      default_max_attempts = at_least 1 default_max_attempts;
      retry_base_seconds = base;
      retry_max_seconds = at_least base retry_max_seconds;
      retry_jitter = at_least 0 retry_jitter;
    }

-- Whether the table `queue_job_dead_letters` has a unique index on `job_id`.
pub record Schema : Type 0 where
  pub dead_letters_unique_job : Bool

-- db/schema.sql declares the column `job_id UUID NOT NULL`, and no index on it.
abbrev pub shipped_schema : Schema
shipped_schema = record { dead_letters_unique_job = false }
