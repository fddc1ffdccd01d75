-- ===== src/Llm/Throttle/Agreement.antt =====
-- The two stores of app/llm/throttle.py, side by side.
use device_management.Llm.Throttle.{within, retry_after, memory_incr, postgres_incr}
use device_management.Llm.Throttle.Windows.{Call, memory_run, memory_incr_counts}
use device_management.Llm.Throttle.Database.{Request, postgres_run, postgres_incr_counts}
use device_management.Prelude.{
  ℕ, ◌≤◌, ◌<◌, ◌≡◌, sym, ap, ◌∙◌, subst, List, map, Memᴰ, Memᴰ-map, nat_eq, string_eq, pair_eq, ℤ,
  list_eq,
}

-- The store in PostgreSQL and the store in memory answer a request alike, with the same count, the
-- same verdict and the same wait, whatever requests both have seen before and whatever purges came
-- in between; by clocks that agree and do not go back, in windows of at most an hour.
pub postgres_incr-memory_incr :
    (limit : ℤ) (window : ℕ) (h : List Request) (r : Request)
    → 0 < window
    → window ≤ 3600
    → ((e : Request) → Memᴰ e h → e.call.now ≤ r.call.now)
    → (postgres_incr
        (postgres_run limit window h)
        r.monotonic
        r.call.now
        r.delete_works
        r.call.subject
        limit
        window).1
      ≡ (memory_incr
          (memory_run limit window (map (λ (e : Request). e.call) h))
          r.call.now
          r.call.subject
          limit
          window).1
unfolding postgres_incr memory_incr
postgres_incr-memory_incr limit window h r w hour past =
    ap
      (λ (n : ℕ). record {
        allowed = within n limit;
        count = n;
        retry_after = retry_after window r.call.now;
      })
      ((postgres_incr_counts limit window h r w hour past).0
        ∙ sym (memory_incr_counts limit window (map (λ (e : Request). e.call) h) r.call earlier).0)
  where
    earlier : (c : Call) → Memᴰ c (map (λ (e : Request). e.call) h) → c.now ≤ r.call.now
    earlier c m =
        let (e, i, q) = Memᴰ-map (λ (e : Request). e.call) h m in
        subst (λ (x : Call). x.now ≤ r.call.now) (sym q) (past e i)
