-- ===== src/Examples/LlmRuns.antt =====
-- Requests to the LLM proxy.
use device_management.Json.{Json, null}
use device_management.Llm.{Context}
use device_management.Llm.Throttle.{
  Answer, within, window_index, window_start, Counters, PostgresState, memory_incr, postgres_incr,
  quota_limit, quota_window_seconds, positive, State, throttle_before,
}
use device_management.Llm.Throttle.Windows.{Call, calls, count_of, memory_run, memory_incr_counts}
use device_management.Llm.Throttle.Agreement.{postgres_incr-memory_incr}
use device_management.Llm.Throttle.Database.{
  Request, postgres_run, postgres_incr_counts, postgres_incr-forgets,
}
use device_management.Llm.Throttle.Refusal.{Refused, nonempty, throttle_before_outcome}
use device_management.Llm.Traffic
use device_management.Llm.Traffic.{Key, Row, Rows, flush_now, record_all}
use device_management.Llm.Traffic.Conservation.{total, flush_now-conserves, flush_now-repeats}
use device_management.Prelude.{
  ℕ, suc, ◌+◌, ◌≤◌, ◌≡◌, sym, subst, ◌≢◌, ◌⊎◌, ◌↔◌, true, false, Option, none, some, [], ◌∷◌, Memᴰ,
  arith, take, nat_eq, string_eq, pair_eq, ℤ, pos, list_eq, Str, codes,
}

abbrev first_call : Call
first_call = record { subject = codes "u1"; now = 61000000 }

abbrev second_call : Call
second_call = record { subject = codes "u1"; now = 62000000 }

first_before : (e : Call) → Memᴰ e (first_call ∷ []) → e.now ≤ second_call.now
first_before e (Memᴰ.head q) = subst (λ (c : Call). c.now ≤ second_call.now) (sym q) (omega arith)
first_before e (Memᴰ.tail m) = elim m [ ]

memory_incr_counts_example :
    let a =
      (memory_incr (memory_run (pos 1) 60 (first_call ∷ [])) 62000000 (codes "u1") (pos 1) 60).1 in
    let n = suc (calls 60 (codes "u1") (window_index 60 62000000) (first_call ∷ [])) in
    (a.count ≡ n) × (a.allowed ≡ within n (pos 1))
memory_incr_counts_example =
    memory_incr_counts (pos 1) 60 (first_call ∷ []) second_call first_before

abbrev first_request : Request
first_request = record { call = first_call; monotonic = 1; delete_works = true }

abbrev second_request : Request
second_request = record { call = second_call; monotonic = 2; delete_works = true }

request_before : (e : Request) → Memᴰ e (first_request ∷ []) → e.call.now ≤ second_request.call.now
request_before e (Memᴰ.head q) =
    subst (λ (r : Request). r.call.now ≤ 62000000) (sym q) (omega arith)
request_before e (Memᴰ.tail m) = elim m [ ]

postgres_incr_counts_example :
    let s = postgres_run (pos 1) 60 (first_request ∷ []) in
    let a = (postgres_incr s 2 62000000 true (codes "u1") (pos 1) 60).1 in
    let n = suc (calls 60 (codes "u1") (window_index 60 62000000) (first_call ∷ [])) in
    (a.count ≡ n) × (a.allowed ≡ within n (pos 1))
postgres_incr_counts_example =
    postgres_incr_counts (pos 1) 60 (first_request ∷ []) second_request (omega arith) (omega arith)
      request_before

postgres_incr-memory_incr_example :
    (postgres_incr
      (postgres_run (pos 1) 60 (first_request ∷ []))
      2
      62000000
      true
      (codes "u1")
      (pos 1)
      60).1
    ≡ (memory_incr (memory_run (pos 1) 60 (first_call ∷ [])) 62000000 (codes "u1") (pos 1) 60).1
postgres_incr-memory_incr_example =
    postgres_incr-memory_incr (pos 1) 60 (first_request ∷ []) second_request (omega arith)
      (omega arith) request_before

abbrev counted : PostgresState
counted = record { counters = ((codes "u1", 0), 5) ∷ []; last_purge = 0 }

postgres_incr-forgets_example :
    count_of
      (postgres_incr counted 3700000000 3700000000 true (codes "u1") (pos 5) 7200).0.counters
      (codes "u1")
      (window_start 7200 3700000000)
    ≡ 0
postgres_incr-forgets_example =
    postgres_incr-forgets (pos 5) 7200 counted 3700000000 3700000000 (codes "u1") (omega arith)
      (omega arith)

abbrev over : Counters → Str → ℤ → ℕ → Counters × Option Answer
over d subject limit window =
    let (d', a) = memory_incr d 62000000 subject limit window in (d', some a)

abbrev full_store : State Counters
full_store = record { store = ((codes "u1", 1), 1) ∷ []; denied = 0 }

abbrev context : Context Json
context = record {
  identity = record {
    client_uuid = codes "u1";
    email = codes "a@b";
    auth_method = codes "llm_token";
    expires_at = none;
  };
  payload = null;
  verdicts = [];
  quota = none;
}

abbrev one : Option Str
one = some (codes "1")

throttle_before_outcome_example :
    let counted =
      (over full_store.store (codes "u1") (quota_limit one) (quota_window_seconds none)).1 in
    let r = throttle_before over one none full_store context in
    ((r.1.1 ≢ none) ↔ (
      (positive (quota_limit one) ≡ true)
      × ((nonempty (codes "u1") ≡ true)
          × ((a : Answer) × (counted ≡ some a) × (a.allowed ≡ false)))))
    × ((r.1.1 ≡ none) ⊎ Refused full_store context counted r)
throttle_before_outcome_example = throttle_before_outcome over one none full_store context

abbrev traffic_key : Key
traffic_key = (300, (codes "chat", (codes "m", codes "2xx")))

abbrev traffic_row : Row
traffic_row = record { count = 3; duration_ms_sum = 9; duration_ms_max = 4; tokens_sum = pos 12 }

abbrev traffic : Traffic.State
traffic = record {
  acc = (traffic_key, traffic_row) ∷ ((600, traffic_key.1), traffic_row) ∷ [];
  table = [];
  last_purge = 0;
}

flush_now-conserves_example :
    let r = flush_now 800000000 true none [] traffic in
    (total r.0.table ≡ total traffic.table + total traffic.acc)
    × (r.0.acc ≡ record_all [] [])
    × (r.1 ≡ 2)
flush_now-conserves_example = flush_now-conserves 800000000 true [] traffic (omega arith)

flush_now-repeats_example :
    let r = flush_now 800000000 true (some 1) [] traffic in
    total r.0.table + total r.0.acc
    ≡ total traffic.table + total traffic.acc + total (take 1 traffic.acc)
flush_now-repeats_example = flush_now-repeats 800000000 true 1 traffic (omega arith) (omega arith)
