-- ===== src/Suggest/RateLimit.antt =====
-- `rate_limit_ok` of app/admin/suggest_utils.py: a sliding window for each key, in memory. Times are
-- natural numbers in a unit of the window's.
pub mod Window
use device_management.Prelude.Dict
use device_management.Prelude.Dict.{Dict, get-put}
use device_management.Prelude.{
  ℕ, ◌+◌, refl, Bool, true, false, not, ◌&&◌, none, some, List, [], ◌∷◌, ◌++◌, arith, ltb, leb,
  if◌then◌else◌, or_else, length, select, ◌==◌, nat_eq, string_eq, pair_eq, ℤ, pos, pos_part,
  list_eq, Str, int_ltb,
}

abbrev pub Hits : Type 0
Hits = Dict Str (List ℕ)

-- `t > ts - window_seconds`
abbrev pub recent : ℕ → ℕ → ℕ → Bool
recent window ts t = ltb ts (t + window)

abbrev pub hits_of : Hits → Str → List ℕ
hits_of store key = or_else (Dict.get store key) []

-- the new store, and whether the request passes
unfoldable pub rate_limit_ok : Hits → Str → ℤ → ℕ → ℕ → Hits × Bool
rate_limit_ok store key limit window ts =
    let hits = select (recent window ts) (hits_of store key) in
    if not (int_ltb (pos 0) limit)
    then (store, true)
    else if leb (pos_part limit) (length hits)
    then (Dict.put store key hits, false)
    else (Dict.put store key (hits ++ ts ∷ []), true)

-- A sequence of requests of several keys, each with its time: the times at which the requests of a
-- key have passed, after those of `passed`.
unfoldable pub passed_times : ℤ → ℕ → Str → List (Str × ℕ) → Hits → List ℕ → Hits × List ℕ
unfolding rate_limit_ok
passed_times limit window key [] store passed = (store, passed)
passed_times limit window key ((k, ts) ∷ calls) store passed =
    let (after, ok) = rate_limit_ok store k limit window ts in
    passed_times limit window key calls after (if ok && k == key then passed ++ ts ∷ [] else passed)
