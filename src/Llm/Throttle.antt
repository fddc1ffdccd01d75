-- ===== src/Llm/Throttle.antt =====
-- app/llm/throttle.py: the counters of a fixed window, in memory and in PostgreSQL, and the
-- interceptor that refuses what is over the limit.
pub mod Windows
pub mod Database
pub mod Refusal
pub mod Agreement
use Prim.Native.Nat
use mathlib.Core.Option
use device_management.Prelude.Dict
use device_management.Prelude.Dict.{Dict}
use device_management.Prelude.Text.{int_of}
use device_management.Llm.{Identity, Quota, Context, Response, openai_error, note}
use device_management.Prelude.{
  ℕ, suc, ◌+◌, ◌-◌, ◌*◌, ◌/◌, max, refl, Bool, true, false, ◌&&◌, Option, none, some, [], ◌∷◌, ◌++◌,
  arith, ltb, leb, if◌then◌else◌, or_else, ◌==◌, nat_eq, string_eq, pair_eq, ℤ, pos, negsuc,
  pos_part, at_least, list_eq, Str, codes, first_text, decimal,
}

abbrev pub second : ℕ
second = 1000000

-- `math.ceil(t)` in seconds
abbrev pub ceil_seconds : ℕ → ℕ
ceil_seconds t = (t + (second - 1)) / second

-- what `incr` returns: whether the request is within the limit, its count, and how long to wait
pub record Answer : Type 0 where
  pub allowed : Bool
  pub count : ℕ
  pub retry_after : ℕ

-- `count <= limit`
abbrev pub within : ℕ → ℤ → Bool
within count (pos n) = leb count n
within count (negsuc n) = false

abbrev pub Counters : Type 0
Counters = Dict (Str × ℕ) ℕ

-- `del` of the keys that pass the test
unfoldable pub drop_keys : (Str × ℕ → Bool) → Counters → Counters
drop_keys p [] = []
drop_keys p ((k, n) ∷ d) = let rest = drop_keys p d in if p k then rest else (k, n) ∷ rest

-- `now // window_seconds`
abbrev pub window_index : ℕ → ℕ → ℕ
window_index window_seconds now = now / (window_seconds * second)

-- the end of the window, from now
abbrev pub retry_after : ℕ → ℕ → ℕ
retry_after window_seconds now =
    max 1 (ceil_seconds ((window_index window_seconds now + 1) * (window_seconds * second) - now))

-- `counters[key] = counters.get(key, 0) + 1`
abbrev pub bump : Counters → Str × ℕ → Counters
bump d key = Dict.put d key (or_else (Dict.get d key) 0 + 1)

-- `MemoryQuotaStore.incr`
unfoldable pub memory_incr : Counters → ℕ → Str → ℤ → ℕ → Counters × Answer
unfolding drop_keys
memory_incr counters now subject limit window_seconds =
    let index = window_index window_seconds now in
    let counted = bump counters (subject, index) in
    let count = or_else (Dict.get counted (subject, index)) 0 in
    (
      drop_keys (λ (k : Str × ℕ). k.0 == subject && ltb k.1 index) counted,
      record {
        allowed = within count limit;
        count = count;
        retry_after = retry_after window_seconds now;
      },
    )

-- The table `llm_quota_counters`, by subject and start of the window in seconds, and the time of
-- the last purge by the clock of the process.
pub record PostgresState : Type 0 where
  pub counters : Counters
  pub last_purge : ℕ

abbrev pub purge_interval : ℕ
purge_interval = 60 * second

-- `to_timestamp(floor(epoch / win) * win)`
abbrev pub window_start : ℕ → ℕ → ℕ
window_start window_seconds now = window_index window_seconds now * window_seconds

-- `_maybe_purge`: where the DELETE fails, only the time is kept
unfoldable pub maybe_purge : ℕ → ℕ → Bool → PostgresState → PostgresState
unfolding drop_keys
maybe_purge monotonic now delete_works s =
    if ltb monotonic (s.last_purge + purge_interval) then s else record {
      counters =
          if delete_works
          then drop_keys (λ (k : Str × ℕ). ltb (k.1 * second + 3600 * second) now) s.counters
          else s.counters;
      last_purge = monotonic;
    }

-- `PostgresQuotaStore.incr` with the clock of the database and that of the process
unfoldable pub postgres_incr : PostgresState → ℕ → ℕ → Bool → Str → ℤ → ℕ → PostgresState × Answer
unfolding maybe_purge
postgres_incr s monotonic now delete_works subject limit window_seconds =
    let key : Str × ℕ = (subject, window_start window_seconds now) in
    let counted = bump s.counters key in
    let count = or_else (Dict.get counted key) 0 in
    (
      maybe_purge monotonic now delete_works (record s { counters = counted }),
      record {
        allowed = within count limit;
        count = count;
        retry_after = retry_after window_seconds now;
      },
    )

-- A value of the configuration: absent, or a text.
abbrev pub Setting : Type 0
Setting = Option Str

-- `int(cfg(name, 0) or 0)`, and 0 for what is no number
unfoldable pub quota_limit : Setting → ℤ
quota_limit none = pos 0
quota_limit (some []) = pos 0
quota_limit (some (c ∷ s)) = or_else (int_of (c ∷ s)) (pos 0)

-- `max(10, int(cfg(name, 60) or 60))`
unfoldable pub quota_window_seconds : Setting → ℕ
quota_window_seconds none = 60
quota_window_seconds (some []) = 60
quota_window_seconds (some (c ∷ s)) = at_least 10 (or_else (int_of (c ∷ s)) (pos 60))

abbrev pub positive : ℤ → Bool
positive (pos (suc n)) = true
positive _ = false

-- `str(limit)` of a limit that is positive
abbrev pub limit_text : ℤ → Str
limit_text z = decimal (pos_part z)

abbrev pub refusal : ℤ → ℕ → ℕ → Response
refusal limit window retry_after =
    openai_error 429
      (codes "Rate limit exceeded: "
        ++ limit_text limit
        ++ codes " requests per "
        ++ decimal window
        ++ codes "s window. Retry after "
        ++ decimal retry_after
        ++ codes "s.")
      (codes "rate_limit_exceeded") (some (codes "rate_limit_exceeded")) (some retry_after)

-- The state of the process and its store: `S` is the store, and `denied` the metric.
pub record State (S : Type 0) : Type 0 where
  pub store : S
  pub denied : ℕ

-- what the interceptor makes of the store's answer; `none` is an exception, which lets through
unfoldable pub judge :
    {S P : Type 0}
    → ℤ
    → ℕ
    → State S
    → Context P
    → S × Option Answer
    → State S × (Context P × Option Response)
unfolding openai_error
judge limit window s ctx (store, none) = (record s { store = store }, (ctx, none))
judge {P = P} limit window s ctx (store, some a) =
    let counted : Context P = record ctx {
      quota = some (record { count = a.count; limit = limit; window_seconds = window });
    } in
    if a.allowed then (record s { store = store }, (counted, none)) else (
      record { store = store; denied = s.denied + 1 },
      (note (codes "throttle:deny") counted, some (refusal limit window a.retry_after)),
    )

unfoldable pub throttle :
    {S P : Type 0}
    → (S → Str → ℤ → ℕ → S × Option Answer)
    → ℤ
    → ℕ
    → Str
    → State S
    → Context P
    → State S × (Context P × Option Response)
unfolding judge
throttle incr limit window [] s ctx = (s, (ctx, none))
throttle incr limit window (c ∷ cs) s ctx =
    if positive limit
    then judge limit window s ctx (incr s.store (c ∷ cs) limit window)
    else (s, (ctx, none))

-- `ThrottleInterceptor.before`, with the store's `incr`, whose exception is `none`.
unfoldable pub throttle_before :
    {S P : Type 0}
    → (S → Str → ℤ → ℕ → S × Option Answer)
    → Setting
    → Setting
    → State S
    → Context P
    → State S × (Context P × Option Response)
unfolding quota_limit quota_window_seconds throttle
throttle_before incr limit_setting window_setting s ctx =
    throttle incr (quota_limit limit_setting) (quota_window_seconds window_setting)
      (first_text ctx.identity.client_uuid ctx.identity.email) s ctx
