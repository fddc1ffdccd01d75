-- ===== src/Queue/Dedupe.antt =====
-- `enqueue` on each of its branches.
use device_management.Json.{Json, is_dict}
use device_management.Queue.{
  second, Status, pending, Row, Db, PostgresQueue, Result, ok, raised, value_error,
}
use device_management.Queue.Enqueue.{enqueue, upsert, first, conflicts, touch, new_row, int_or}
use device_management.Prelude.{
  ℕ, ◌+◌, ◌*◌, ◌<◌, String, ◌≡◌, refl, sym, ap, ◌∙◌, subst, ◌⊎◌, inl, inr, Bool, true, false, not,
  ◌||◌, Option, none, some, List, [], ◌∷◌, ◌++◌, map, Memᴰ, arith, Bool-cases, Option-cases, length,
  Each, Memᴰ-map, ◌==◌, nat_eq, string_eq, pair_eq, ℤ, at_least, at_least_le,
}

first-none : (p : Row → Bool) (rs : List Row) → first p rs ≡ none → Each (λ r. p r ≡ false) rs
first-none p [] h r m = elim m [ ]
first-none p (s ∷ ss) h r (Memᴰ.head e) = ap p e ∙ ground arith
first-none p (s ∷ ss) h r (Memᴰ.tail m) = first-none p ss (ground arith) r m

first-some :
    (p : Row → Bool) (rs : List Row) (r : Row) → first p rs ≡ some r → Memᴰ r rs × (p r ≡ true)
first-some p [] r h = absurd (cc h)
first-some p (s ∷ ss) r h = elim (Bool-cases (p s)) [
  | inl e ↦ let q : s ≡ r = ground arith in (Memᴰ.head (sym q), ap p (sym q) ∙ e)
  | inr e ↦ let (m, t) = first-some p ss r (ground arith) in (Memᴰ.tail m, t)
]

length-map : (f : Row → Row) (rs : List Row) → length (map f rs) ≡ length rs
length-map f [] = refl
length-map f (r ∷ rs) = omega (arith, length-map f rs)

-- what a second `enqueue` of one key leaves of a row: all but its time of update
pub record Untouched (r s : Row) : Type 0 where
  pub same : r ≡ record s { updated_at = r.updated_at }

touch-Untouched :
    (now : ℕ) (t : String) (k : Option String) (r : Row) → Untouched (touch now t k r) r
unfolding touch
touch-Untouched now t k r = elim (Bool-cases (conflicts t k r)) [
  | inl e ↦ record { same = rw e refl }
  | inr e ↦ record { same = rw e refl }
]

module _ (q : PostgresQueue) (now id : ℕ) (topic : String) (payload : Json) (key : Option String)
    (delay : ℤ) (max_attempts : Option ℤ) (db db' : Db) (result : Result (ℕ × Status)) where
  -- `ValueError`: nothing was written
  pub record Refused : Type 0 where
    pub invalid : (topic == "" || not (is_dict payload)) ≡ true
    pub same : db' ≡ db
    pub error : result ≡ raised value_error

  -- no row has the key: a new pending row
  pub record Added : Type 0 where
    pub unknown : Each (λ (r : Row). conflicts topic key r ≡ false) db.jobs
    pub row : Row
    pub appended : db'.jobs ≡ db.jobs ++ row ∷ []
    pub letters : db'.dead_letters ≡ db.dead_letters
    pub reply : result ≡ ok (id, pending)
    pub row_id : row.id ≡ id
    pub row_created : (row.created_at ≡ now) × (row.updated_at ≡ now)
    pub row_topic : row.topic ≡ topic
    pub row_payload : row.payload ≡ payload
    pub row_key : row.dedupe_key ≡ key
    pub row_status : row.status ≡ pending
    pub row_attempts : row.attempts ≡ 0
    pub row_limit : row.max_attempts ≡ at_least 1 (int_or max_attempts q.default_max_attempts)
    pub row_positive : 0 < row.max_attempts
    pub row_due : row.next_attempt_at ≡ now + at_least 0 delay * second
    pub row_free : (row.lock_owner ≡ none) × (row.locked_at ≡ none)
    pub row_unfinished : (row.completed_at ≡ none) × (row.last_error ≡ none)

  -- a row has the key: its id and status are returned, and no row is added or restarted
  pub record Deduped : Type 0 where
    pub row : Row
    pub member : Memᴰ row db.jobs
    pub known : conflicts topic key row ≡ true
    pub reply : result ≡ ok (row.id, row.status)
    pub letters : db'.dead_letters ≡ db.dead_letters
    pub count : length db'.jobs ≡ length db.jobs
    pub rows : Each (λ (s : Row). (r : Row) × Memᴰ r db.jobs × Untouched s r) db'.jobs

-- `enqueue` does one of three things: it raises `ValueError` and writes nothing; or, when no row has
-- the topic and deduplication key, it adds a pending, unlocked row with the topic, payload and key,
-- that is due after the delay and has at least one attempt; or it returns the row that has them, in
-- whatever status that row is, and leaves every column of every row but the time of update. No dead
-- letter changes.
pub enqueue_outcome :
    (q : PostgresQueue) (now id : ℕ) (topic : String) (payload : Json) (key : Option String)
    (delay : ℤ) (max_attempts : Option ℤ) (db : Db)
    → let (db', result) = enqueue q now id topic payload key delay max_attempts db in
      Refused q now id topic payload key delay max_attempts db db' result
      ⊎ Added q now id topic payload key delay max_attempts db db' result
      ⊎ Deduped q now id topic payload key delay max_attempts db db' result
unfolding enqueue
enqueue_outcome q now id t p k z n db = elim (Bool-cases (t == "" || not (is_dict p))) [
  | inl bad ↦ inl (rw bad (record { invalid = bad; same = refl; error = refl }))
  | inr fine ↦ elim (Option-cases (first (conflicts t k) db.jobs)) [
    | inl new ↦ inr (
        inl (
          rw (fine, new, upsert)
            (record {
              unknown = first-none (conflicts t k) db.jobs new;
              row =
                  new_row now id t p k (at_least 1 (int_or n q.default_max_attempts))
                    (at_least 0 z);
              appended = refl;
              letters = refl;
              reply = refl;
              row_id = refl;
              row_created = (refl, refl);
              row_topic = refl;
              row_payload = refl;
              row_key = refl;
              row_status = refl;
              row_attempts = refl;
              row_limit = refl;
              row_positive = at_least_le 1 (int_or n q.default_max_attempts);
              row_due = refl;
              row_free = (refl, refl);
              row_unfinished = (refl, refl);
            })))
    | inr (r, old) ↦
        let (m, c) = first-some (conflicts t k) db.jobs r old in
        inr (
          inr (
            rw (fine, old, upsert)
              (record {
                row = r;
                member = m;
                known = c;
                reply = refl;
                letters = refl;
                count = length-map (touch now t k) db.jobs;
                rows = λ s ms.
                    let (r', m', e) = Memᴰ-map (touch now t k) db.jobs ms in
                    (r', m', subst (λ x. Untouched x r') (sym e) (touch-Untouched now t k r'));
              })))
  ]
]
