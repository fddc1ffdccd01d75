-- ===== src/Queue/Settle.antt =====
-- `ack`, `retry` and `move_to_dead_letter` of `PostgresQueue`: how a worker gives a job back.
use device_management.Queue.{
  second, pending, done, dead, is_processing, Row, DeadLetter, Db, QueueJob,
  invalid_conflict_target, Result, ok, raised, PostgresQueue, Schema,
}
use device_management.Prelude.{
  ℕ, ◌+◌, ◌-◌, ◌*◌, ◌/◌, ◌^◌, min, max, String, Bool, false, ◌&&◌, Option, none, some, List, [],
  ◌∷◌, map, ltb, if◌then◌else◌, take, any, ◌==◌, nat_eq, string_eq, pair_eq,
}

abbrev pub owned_by : Option String → String → Bool
owned_by none worker_id = false
owned_by (some w) worker_id = w == worker_id

-- `WHERE id = … AND status = 'processing' AND lock_owner = …`
unfoldable pub holds : ℕ → String → Row → Bool
holds job_id worker_id r =
    r.id == job_id && is_processing r.status && owned_by r.lock_owner worker_id

unfoldable pub ack_row : ℕ → ℕ → String → Row → Row
unfolding holds
ack_row now job_id worker_id r =
    if holds job_id worker_id r
    then record r {
      updated_at = now;
      status = done;
      locked_at = none;
      lock_owner = none;
      completed_at = some now;
    }
    else r

-- The result says whether a row was changed (`cur.rowcount > 0`).
unfoldable pub ack : ℕ → ℕ → String → Db → Db × Bool
unfolding ack_row
ack now job_id worker_id db = (
  record db { jobs = map (ack_row now job_id worker_id) db.jobs },
  any (holds job_id worker_id) db.jobs,
)

-- `_retry_delay_seconds`; `sample` is what `random.uniform(0.0, retry_jitter_seconds)` returned
unfoldable pub retry_delay_seconds : PostgresQueue → ℕ → ℕ → ℕ
retry_delay_seconds q sample attempts =
    let exponent = attempts - 1 in
    let delay = min q.retry_max_seconds (q.retry_base_seconds * 2 ^ exponent) * second in
    max 1 ((if ltb 0 q.retry_jitter then delay + sample else delay) / second)

-- `(error_text or "")[:2000]`
abbrev pub clip : List ℕ → List ℕ
clip error_text = take 2000 error_text

unfoldable pub retry_row : ℕ → ℕ → String → ℕ → List ℕ → Row → Row
unfolding holds
retry_row now job_id worker_id delay error_text r =
    if holds job_id worker_id r
    then record r {
      updated_at = now;
      status = pending;
      next_attempt_at = now + delay * second;
      locked_at = none;
      lock_owner = none;
      last_error = some (clip error_text);
    }
    else r

unfoldable pub retry : PostgresQueue → ℕ → ℕ → ℕ → String → ℕ → List ℕ → Db → Db × Bool
unfolding retry_row retry_delay_seconds
retry q now sample job_id worker_id attempts error_text db =
    let delay = retry_delay_seconds q sample attempts in
    (
      record db { jobs = map (retry_row now job_id worker_id delay error_text) db.jobs },
      any (holds job_id worker_id) db.jobs,
    )

unfoldable pub dead_letter : ℕ → QueueJob → List ℕ → DeadLetter
dead_letter now job error_text = record {
  created_at = now;
  job_id = job.id;
  topic = job.topic;
  payload = job.payload;
  dedupe_key = job.dedupe_key;
  attempts = job.attempts;
  max_attempts = job.max_attempts;
  last_error = clip error_text;
}

-- `INSERT … ON CONFLICT (job_id) DO UPDATE`
unfoldable pub put_letter : DeadLetter → List DeadLetter → List DeadLetter
put_letter l [] = l ∷ []
put_letter l (m ∷ ms) =
    if m.job_id == l.job_id
    then record m {
      created_at = l.created_at;
      attempts = l.attempts;
      max_attempts = l.max_attempts;
      last_error = l.last_error;
    }
      ∷ ms
    else m ∷ put_letter l ms

unfoldable pub dead_row : ℕ → ℕ → String → List ℕ → Row → Row
unfolding holds
dead_row now job_id worker_id error_text r =
    if holds job_id worker_id r
    then record r {
      updated_at = now;
      status = dead;
      locked_at = none;
      lock_owner = none;
      completed_at = some now;
      last_error = some (clip error_text);
    }
    else r

-- One transaction: a refusal of its first statement rolls it back.
unfoldable pub move_to_dead_letter : Schema → ℕ → QueueJob → String → List ℕ → Db → Db × Result Bool
unfolding dead_letter put_letter dead_row
move_to_dead_letter schema now job worker_id error_text db =
    if schema.dead_letters_unique_job
    then (
      record {
        jobs = map (dead_row now job.id worker_id error_text) db.jobs;
        dead_letters = put_letter (dead_letter now job error_text) db.dead_letters;
      },
      ok (any (holds job.id worker_id) db.jobs),
    )
    else (db, raised invalid_conflict_target)
