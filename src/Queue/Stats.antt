-- ===== src/Queue/Stats.antt =====
-- `PostgresQueue.stats`.
use device_management.Queue.{
  second, is_pending, is_processing, is_done, is_dead, Row, Db, PostgresQueue,
}
use device_management.Prelude.{
  ℕ, ◌+◌, ◌-◌, ◌*◌, ◌/◌, max, Bool, false, ◌&&◌, none, some, List, [], ◌∷◌, ltb, if◌then◌else◌,
  length, select, nat_eq, string_eq, pair_eq,
}

-- The counters of `stats`; the age in seconds is that of the oldest pending job.
pub record Stats : Type 0 where
  pub pending : ℕ
  pub processing : ℕ
  pub done : ℕ
  pub dead : ℕ
  pub total : ℕ
  pub oldest_pending_age_seconds : ℕ
  pub stale_processing : ℕ

abbrev pub count_where : (Row → Bool) → List Row → ℕ
count_where p rs = length (select p rs)

unfoldable pub oldest_age : ℕ → List Row → ℕ
oldest_age now [] = 0
oldest_age now (r ∷ rs) =
    let rest = oldest_age now rs in
    if is_pending r.status then max (now - r.created_at) rest else rest

unfoldable pub is_stale : PostgresQueue → ℕ → Row → Bool
is_stale q now r =
    is_processing r.status
    && elim r.locked_at [ none ↦ false | some t ↦ ltb (t + q.lock_ttl_seconds * second) now ]

unfoldable pub stats : PostgresQueue → ℕ → Db → Stats
unfolding oldest_age is_stale
stats q now db = record {
  pending = count_where (λ (r : Row). is_pending r.status) db.jobs;
  processing = count_where (λ (r : Row). is_processing r.status) db.jobs;
  done = count_where (λ (r : Row). is_done r.status) db.jobs;
  dead = count_where (λ (r : Row). is_dead r.status) db.jobs;
  total = length db.jobs;
  oldest_pending_age_seconds = oldest_age now db.jobs / second;
  stale_processing = count_where (is_stale q now) db.jobs;
}
