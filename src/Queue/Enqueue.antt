-- ===== src/Queue/Enqueue.antt =====
-- `PostgresQueue.enqueue`. Each SQL statement is one atomic change of the tables.
use device_management.Json.{Json, is_dict}
use device_management.Queue.{
  second, Status, pending, Row, Db, value_error, Result, ok, raised, PostgresQueue,
}
use device_management.Prelude.{
  ℕ, zero, ◌+◌, ◌*◌, String, Bool, false, not, ◌&&◌, ◌||◌, Option, none, some, List, [], ◌∷◌, ◌++◌,
  map, if◌then◌else◌, ◌==◌, nat_eq, string_eq, pair_eq, ℤ, pos, at_least,
}

-- `value or default` of an optional integer: 0 is no value
abbrev pub int_or : Option ℤ → ℕ → ℤ
int_or none default = pos default
int_or (some (pos zero)) default = pos default
int_or (some n) default = n

abbrev pub first : (Row → Bool) → List Row → Option Row
first p [] = none
first p (r ∷ rs) = if p r then some r else first p rs

-- the unique index on (topic, dedupe_key), in which a NULL conflicts with nothing
unfoldable pub same_key : Option String → Option String → Bool
same_key (some k) (some j) = k == j
same_key _ _ = false

unfoldable pub conflicts : String → Option String → Row → Bool
unfolding same_key
conflicts topic dedupe_key r = r.topic == topic && same_key r.dedupe_key dedupe_key

unfoldable pub new_row : ℕ → ℕ → String → Json → Option String → ℕ → ℕ → Row
new_row now id topic payload dedupe_key max_attempts delay = record {
  id = id;
  created_at = now;
  updated_at = now;
  topic = topic;
  payload = payload;
  status = pending;
  attempts = 0;
  max_attempts = max_attempts;
  next_attempt_at = now + delay * second;
  locked_at = none;
  lock_owner = none;
  dedupe_key = dedupe_key;
  completed_at = none;
  last_error = none;
}

unfoldable pub touch : ℕ → String → Option String → Row → Row
unfolding conflicts
touch now topic dedupe_key r =
    if conflicts topic dedupe_key r then record r { updated_at = now } else r

-- `INSERT … ON CONFLICT (topic, dedupe_key) DO UPDATE SET updated_at = now() RETURNING id, status`
unfoldable pub upsert : ℕ → Row → Db → Db × (ℕ × Status)
unfolding touch
upsert now row db =
    let hit = first (conflicts row.topic row.dedupe_key) db.jobs in
    elim hit [
      | none ↦ (record db { jobs = db.jobs ++ row ∷ [] }, (row.id, row.status))
      | some r ↦
          (record db { jobs = map (touch now row.topic row.dedupe_key) db.jobs }, (r.id, r.status))
    ]

-- `id` is the UUID that the database draws.
unfoldable pub enqueue :
    PostgresQueue
    → ℕ
    → ℕ
    → String
    → Json
    → Option String
    → ℤ
    → Option ℤ
    → Db
    → Db × Result (ℕ × Status)
unfolding upsert new_row
enqueue q now id topic payload dedupe_key run_after_seconds max_attempts db =
    if topic == "" || not (is_dict payload)
    then (db, raised value_error)
    else let attempts_limit = at_least 1 (int_or max_attempts q.default_max_attempts) in
      let delay = at_least 0 run_after_seconds in
      let (db', row) =
        upsert now (new_row now id topic payload dedupe_key attempts_limit delay) db in
      (db', ok row)
