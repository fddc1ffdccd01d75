-- ===== src/Llm/Traffic.antt =====
-- app/llm/traffic.py: the counters of LLM traffic, kept in memory by bucket of five minutes, route,
-- model and class of status, and written to the table `llm_traffic` from time to time.
pub mod Bound
pub mod Conservation
use device_management.Json.{Json, Fields, obj, num, str, bool, get_field}
use device_management.Prelude.Dict
use device_management.Prelude.Dict.{Dict}
use device_management.Prelude.Text.{int_of}
use device_management.Llm.Throttle.{second}
use device_management.Prelude.{
  ℕ, zero, suc, ◌+◌, ◌*◌, ◌/◌, max, refl, Bool, true, false, ◌&&◌, ◌||◌, Option, none, some, List,
  [], ◌∷◌, ◌++◌, arith, ltb, leb, if◌then◌else◌, or_else, is_some, length, take, ◌==◌, nat_eq,
  string_eq, pair_eq, ℤ, pos, negsuc, list_eq, Str, codes, str_ltb, first_text, decimal,
}

abbrev pub bucket_seconds : ℕ
bucket_seconds = 300

abbrev pub max_pending_keys : ℕ
max_pending_keys = 1000

abbrev pub purge_after_days : ℕ
purge_after_days = 90

abbrev pub purge_every_seconds : ℕ
purge_every_seconds = 6 * 3600

-- bucket, route, model, class of status
abbrev pub Key : Type 0
Key = ℕ × (Str × (Str × Str))

pub record Row : Type 0 where
  pub count : ℕ
  pub duration_ms_sum : ℕ
  pub duration_ms_max : ℕ
  pub tokens_sum : ℤ

-- the sum of two integers
abbrev pub sub_int : ℕ → ℕ → ℤ
sub_int m zero = pos m
sub_int zero (suc n) = negsuc n
sub_int (suc m) (suc n) = sub_int m n

abbrev pub add_int : ℤ → ℤ → ℤ
add_int (pos m) (pos n) = pos (m + n)
add_int (pos m) (negsuc n) = sub_int m (suc n)
add_int (negsuc m) (pos n) = sub_int n (suc m)
add_int (negsuc m) (negsuc n) = negsuc (suc (m + n))

-- what both the accumulator and the `ON CONFLICT` of the table do to a row that is there
unfoldable pub merge : Row → Row → Row
merge w r = record {
  count = w.count + r.count;
  duration_ms_sum = w.duration_ms_sum + r.duration_ms_sum;
  duration_ms_max = max w.duration_ms_max r.duration_ms_max;
  tokens_sum = add_int w.tokens_sum r.tokens_sum;
}

abbrev pub Rows : Type 0
Rows = Dict Key Row

unfoldable pub upsert : Rows → Key → Row → Rows
unfolding merge
upsert [] k r = (k, r) ∷ []
upsert ((j, w) ∷ d) k r = if j == k then (j, merge w r) ∷ d else (j, w) ∷ upsert d k r

-- the order of the keys, which are tuples
abbrev pub key_ltb : Key → Key → Bool
key_ltb (b, (r, (m, s))) (b', (r', (m', s'))) =
    ltb b b'
    || (b == b' && (str_ltb r r' || (r == r' && (str_ltb m m' || (m == m' && str_ltb s s')))))

-- `min(_acc)`
abbrev pub min_from : Key → Rows → Key
min_from k [] = k
min_from k ((j, r) ∷ d) = if key_ltb j k then min_from j d else min_from k d

unfoldable pub pop_oldest : Rows → Rows
pop_oldest [] = []
pop_oldest ((j, r) ∷ d) = Dict.pop ((j, r) ∷ d) (min_from j d)

abbrev pub full : Rows → Bool
full acc = leb max_pending_keys (length acc)

abbrev pub route_alias : Str → Str
route_alias route =
    if route == codes "chat/completions" then codes "chat" else first_text route (codes "?")

-- `_status_class`
abbrev pub status_class : ℕ → Str
status_class status = decimal (status / 100) ++ codes "xx"

-- `int(usage.get("total_tokens") or 0)`, and 0 for what is no number
abbrev pub int_of_json : Option Json → ℤ
int_of_json (some (num n)) = n
int_of_json (some (str s)) = or_else (int_of (codes s)) (pos 0)
int_of_json (some (bool true)) = pos 1
int_of_json _ = pos 0

abbrev pub total_tokens : Json → ℤ
total_tokens (obj fs) = int_of_json (get_field fs "total_tokens")
total_tokens _ = pos 0

-- the key and the row of one request; `duration` is in microseconds
unfoldable pub key_of : ℕ → Str → Str → ℕ → Key
key_of now route model status = (
  now / (bucket_seconds * second) * bucket_seconds,
  (route_alias route, (take 200 model, status_class status)),
)

abbrev pub one_request : ℕ → Json → Row
one_request duration usage = record {
  count = 1;
  duration_ms_sum = duration / 1000;
  duration_ms_max = duration / 1000;
  tokens_sum = total_tokens usage;
}

-- the row of a key that is new takes the place of the oldest where the accumulator is full
unfoldable pub accumulate : Rows → Key → Row → Rows
unfolding upsert pop_oldest
accumulate acc k r =
    if is_some (Dict.get acc k)
    then upsert acc k r
    else upsert (if full acc then pop_oldest acc else acc) k r

unfoldable pub record_request : Rows → ℕ → Str → Str → ℕ → ℕ → Json → Rows
unfolding accumulate key_of
record_request acc now route model status duration usage =
    accumulate acc (key_of now route model status) (one_request duration usage)

-- The accumulator of the process, the table, and the time of the last purge.
pub record State : Type 0 where
  pub acc : Rows
  pub table : Rows
  pub last_purge : ℕ

-- The upserts, each committed at once, up to the one that fails, if any does; `true` if none did.
unfoldable pub write : Option ℕ → Rows → Rows → Rows × Bool
unfolding upsert
write fails [] table = (table, true)
write none ((k, r) ∷ pending) table = write none pending (upsert table k r)
write (some zero) (_ ∷ pending) table = (table, false)
write (some (suc n)) ((k, r) ∷ pending) table = write (some n) pending (upsert table k r)

-- after a failure: what was taken is merged back, and new keys only while there is room
unfoldable pub merge_back : Rows → Rows → Rows
unfolding upsert
merge_back [] acc = acc
merge_back ((k, r) ∷ pending) acc =
    merge_back pending (
      if is_some (Dict.get acc k) then upsert acc k r else if full acc then acc else upsert acc k r)

-- `DELETE … WHERE bucket_ts < now() - 90 days`
unfoldable pub delete_old : ℕ → Rows → Rows
delete_old now [] = []
delete_old now ((k, r) ∷ d) =
    let rest = delete_old now d in
    if ltb ((k.0 + purge_after_days * 86400) * second) now then rest else (k, r) ∷ rest

-- `_maybe_purge`; a DELETE that fails is passed over
unfoldable pub maybe_purge : ℕ → Bool → State → State
unfolding delete_old
maybe_purge now delete_works s =
    if ltb now (s.last_purge + purge_every_seconds * second) then s else record s {
      table = if delete_works then delete_old now s.table else s.table;
      last_purge = now;
    }

-- the end of `flush_now`: `acc` is what requests have added since the accumulator was taken
unfoldable pub finish_flush : ℕ → Bool → Rows → Rows × Bool → State → State × ℕ
unfolding maybe_purge merge_back
finish_flush now delete_works pending (table, true) s =
    (maybe_purge now delete_works (record s { table = table }), length pending)
finish_flush now delete_works pending (table, false) s =
    (record s { acc = merge_back pending s.acc; table = table }, 0)

-- requests, one after the other
unfoldable pub record_all : List (Key × Row) → Rows → Rows
unfolding accumulate
record_all [] acc = acc
record_all ((k, r) ∷ rs) acc = record_all rs (accumulate acc k r)

-- `flush_now`, in which `fails` is the number of upserts before one fails, and `meanwhile` are the
-- requests that are recorded while it writes
unfoldable pub flush_now : ℕ → Bool → Option ℕ → List (Key × Row) → State → State × ℕ
unfolding record_all write finish_flush
flush_now now delete_works fails meanwhile s = elim s.acc [
  | [] ↦ (record s { acc = record_all meanwhile [] }, 0)
  | _ ↦
      finish_flush now delete_works s.acc (write fails s.acc s.table)
        (record s { acc = record_all meanwhile [] })
]
