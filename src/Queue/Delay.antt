-- ===== src/Queue/Delay.antt =====
-- The delay before a retry.
use device_management.Queue.{second, PostgresQueue, new}
use device_management.Queue.Settle.{retry_delay_seconds}
use device_management.Prelude.{
  ℕ, ◌+◌, ◌-◌, ◌*◌, ◌/◌, ◌^◌, ◌≤◌, ◌<◌, min, arith, nat_eq, string_eq, pair_eq, ℤ, at_least,
  at_least_le,
}

delay_bounds :
    (q : PostgresQueue) (sample attempts : ℕ)
    → sample ≤ q.retry_jitter
    → 0 < q.retry_max_seconds
    → let delay = retry_delay_seconds q sample attempts in
      (0 < delay)
      × (min q.retry_max_seconds (q.retry_base_seconds * 2 ^ (attempts - 1)) ≤ delay)
      × (delay ≤ q.retry_max_seconds + q.retry_jitter / second)
unfolding retry_delay_seconds
delay_bounds q sample attempts h m = ground arith

-- Whatever numbers the queue is set up with: the delay before a retry is at least one second and at
-- least the capped exponential delay, and at most `retry_max_seconds` and the whole seconds of the
-- jitter.
pub retry_delay_seconds_bounds :
    (lock_ttl max_attempts base cap jitter : ℤ) (sample attempts : ℕ)
    → let q = new lock_ttl max_attempts base cap jitter in
      sample ≤ q.retry_jitter
      → let delay = retry_delay_seconds q sample attempts in
        (0 < delay)
        × (min q.retry_max_seconds (q.retry_base_seconds * 2 ^ (attempts - 1)) ≤ delay)
        × (delay ≤ q.retry_max_seconds + q.retry_jitter / second)
unfolding new
retry_delay_seconds_bounds l m b c j sample attempts h =
    delay_bounds (new l m b c j) sample attempts h
      (omega (arith, at_least_le (at_least 1 b) c, at_least_le 1 b))
