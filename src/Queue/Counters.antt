-- ===== src/Queue/Counters.antt =====
-- The counters of `stats`.
use device_management.Queue.{Row, Db, PostgresQueue, is_pending, is_processing, is_done, is_dead}
use device_management.Queue.Stats.{stats, count_where, is_stale}
use device_management.Prelude.{
  ℕ, ◌+◌, ◌≤◌, ◌≡◌, refl, List, [], ◌∷◌, arith, length, nat_eq, string_eq, pair_eq,
}

counts :
    (rs : List Row)
    → count_where (λ (r : Row). is_pending r.status) rs
        + count_where (λ (r : Row). is_processing r.status) rs
        + count_where (λ (r : Row). is_done r.status) rs
        + count_where (λ (r : Row). is_dead r.status) rs
      ≡ length rs
counts [] = refl
counts (r ∷ rs) = ground (arith, counts rs)

stale-le :
    (q : PostgresQueue) (now : ℕ) (rs : List Row)
    → count_where (is_stale q now) rs ≤ count_where (λ (r : Row). is_processing r.status) rs
unfolding is_stale
stale-le q now [] = omega arith
stale-le q now (r ∷ rs) = ground (arith, stale-le q now rs)

-- The four counters by status add up to the total, and no more jobs are reported stale than are
-- being processed.
pub stats_add_up :
    (q : PostgresQueue) (now : ℕ) (db : Db)
    → let s = stats q now db in
      (s.pending + s.processing + s.done + s.dead ≡ s.total) × (s.stale_processing ≤ s.processing)
unfolding stats
stats_add_up q now db = (counts db.jobs, stale-le q now db.jobs)
