-- ===== src/Queue/Claim.antt =====
-- `PostgresQueue.claim_jobs`.
use device_management.Json.{Json, str, obj, field, end, is_dict}
use device_management.Queue.{second, processing, is_pending, Row, Db, QueueJob, PostgresQueue}
use device_management.Prelude.{
  ℕ, ◌+◌, ◌*◌, String, Bool, true, not, ◌&&◌, ◌||◌, Option, none, some, List, [], ◌∷◌, map, ltb,
  leb, if◌then◌else◌, take, any, select, ◌==◌, nat_eq, string_eq, pair_eq, ℤ, at_least,
}

-- `locked_at IS NULL OR locked_at < now() - lock_ttl`
unfoldable pub lock_expired : PostgresQueue → ℕ → Option ℕ → Bool
lock_expired q now none = true
lock_expired q now (some t) = ltb (t + q.lock_ttl_seconds * second) now

-- `skip` holds of the rows that other transactions have locked (`FOR UPDATE SKIP LOCKED`).
unfoldable pub claimable : PostgresQueue → ℕ → (ℕ → Bool) → Row → Bool
unfolding lock_expired
claimable q now skip r =
    is_pending r.status
    && leb r.next_attempt_at now
    && lock_expired q now r.locked_at
    && not (skip r.id)

-- `ORDER BY next_attempt_at ASC, created_at ASC`
unfoldable pub earlier : Row → Row → Bool
earlier r s =
    ltb r.next_attempt_at s.next_attempt_at
    || r.next_attempt_at == s.next_attempt_at && leb r.created_at s.created_at

unfoldable pub insert_by : Row → List Row → List Row
insert_by r [] = r ∷ []
insert_by r (s ∷ ss) = let rest = insert_by r ss in if earlier r s then r ∷ s ∷ ss else s ∷ rest

unfoldable pub order_by : List Row → List Row
unfolding insert_by earlier
order_by [] = []
order_by (r ∷ rs) = insert_by r (order_by rs)

abbrev pub has_id : List Row → ℕ → Bool
has_id rs id = any (λ (r : Row). r.id == id) rs

unfoldable pub claim_row : ℕ → String → List Row → Row → Row
claim_row now worker_id chosen r =
    if has_id chosen r.id
    then record r {
      updated_at = now;
      status = processing;
      attempts = r.attempts + 1;
      locked_at = some now;
      lock_owner = some worker_id;
    }
    else r

-- the subquery of `claim_jobs`
unfoldable pub chosen : PostgresQueue → ℕ → (ℕ → Bool) → ℕ → List Row → List Row
unfolding claimable order_by
chosen q now skip limit rows = take limit (order_by (select (claimable q now skip) rows))

-- Python's `json.loads`, `none` where it raises, and `str` of a value.
pub record Runtime : Type 0 where
  pub loads : String → Option Json
  pub str_of : Json → String

raw_payload : String → Json
raw_payload s = obj (field "raw" (str s) end)

-- `_payload_to_dict`
unfoldable pub payload_to_dict : Runtime → Json → Json
unfolding raw_payload
payload_to_dict py (obj fs) = obj fs
payload_to_dict py (str s) = elim (py.loads s) [
  | none ↦ raw_payload s
  | some v ↦ if is_dict v then v else raw_payload s
]
payload_to_dict py v = raw_payload (py.str_of v)

-- `str(row[5]) if row[5] else None`
nonempty_key : Option String → Option String
nonempty_key none = none
nonempty_key (some k) = if k == "" then none else some k

unfoldable pub to_job : Runtime → PostgresQueue → Row → QueueJob
unfolding payload_to_dict nonempty_key
to_job py q r = record {
  id = r.id;
  topic = r.topic;
  payload = payload_to_dict py r.payload;
  attempts = r.attempts;
  max_attempts = if r.max_attempts == 0 then q.default_max_attempts else r.max_attempts;
  dedupe_key = nonempty_key r.dedupe_key;
  created_at = r.created_at;
  next_attempt_at = r.next_attempt_at;
}

-- The rows that the statement returns are those of the subquery, as they are after the update.
unfoldable pub claim_jobs :
    Runtime → PostgresQueue → ℕ → String → (ℕ → Bool) → ℤ → Db → Db × List QueueJob
unfolding claim_row chosen to_job
claim_jobs py q now worker_id skip limit db =
    let rows = chosen q now skip (at_least 1 limit) db.jobs in
    let jobs = map (claim_row now worker_id rows) db.jobs in
    (record db { jobs = jobs }, map (to_job py q) (select (λ (r : Row). has_id rows r.id) jobs))
