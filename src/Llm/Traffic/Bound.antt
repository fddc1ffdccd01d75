-- ===== src/Llm/Traffic/Bound.antt =====
-- The accumulator stays within `MAX_PENDING_KEYS`, whatever happens to the database.
use device_management.Json.{Json}
use device_management.Prelude.Dict
use device_management.Prelude.Dict.{Dict}
use device_management.Llm.Traffic.{
  Key, Row, Rows, State, max_pending_keys, upsert, min_from, pop_oldest, full, accumulate,
  record_all, record_request, write, merge_back, maybe_purge, finish_flush, flush_now, key_ltb,
  key_of, one_request,
}
use device_management.Prelude.{
  ℕ, suc, ◌≤◌, ◌<◌, ◌≡◌, inl, inr, Bool, true, false, Option, List, [], ◌∷◌, arith, Bool-cases,
  is_some, false-ne-true, length, ◌==◌, nat_eq, string_eq, pair_eq, ==_refl, list_eq, Str,
}

pub length-upsert : (d : Rows) (k : Key) (r : Row) → length (upsert d k r) ≤ suc (length d)
unfolding upsert
length-upsert [] k r = omega arith
length-upsert ((j, w) ∷ d) k r = elim (Bool-cases (j == k)) [
  | inl e ↦ rw e (omega arith)
  | inr e ↦ rw e (omega (arith, length-upsert d k r))
]

length-upsert_old :
    (d : Rows) (k : Key) (r : Row)
    → is_some (Dict.get d k) ≡ true
    → length (upsert d k r) ≤ length d
unfolding upsert Dict.get
length-upsert_old [] k r h = absurd (false-ne-true h)
length-upsert_old ((j, w) ∷ d) k r h = elim (Bool-cases (j == k)) [
  | inl e ↦ rw e (omega arith)
  | inr e ↦ rw e (omega (arith, length-upsert_old d k r (rw e at h)))
]

length-pop_le : (d : Rows) (k : Key) → length (Dict.pop d k) ≤ length d
unfolding Dict.pop
length-pop_le [] k = omega arith
length-pop_le ((j, w) ∷ d) k = elim (Bool-cases (j == k)) [
  | inl e ↦ rw e (omega (arith, length-pop_le d k))
  | inr e ↦ rw e (omega (arith, length-pop_le d k))
]

length-pop : (d : Rows) (k : Key) → is_some (Dict.get d k) ≡ true → length (Dict.pop d k) < length d
unfolding Dict.get Dict.pop
length-pop [] k h = absurd (false-ne-true h)
length-pop ((j, w) ∷ d) k h = elim (Bool-cases (j == k)) [
  | inl e ↦ rw e (omega (arith, length-pop_le d k))
  | inr e ↦ rw e (omega (arith, length-pop d k (rw e at h)))
]

min_from-key :
    (k : Key) (d : Rows) (r : Row) → is_some (Dict.get ((k, r) ∷ d) (min_from k d)) ≡ true
unfolding Dict.get
min_from-key k [] r = rw (==_refl k)
min_from-key k ((j, w) ∷ d) r = elim (Bool-cases (key_ltb j k)) [
  | inl e ↦ rw e (kept (min_from j d) (min_from-key j d w))
  | inr e ↦ rw e (skip (min_from k d) (min_from-key k d r))
]
  where
    kept :
        (m : Key)
        → is_some (Dict.get ((j, w) ∷ d) m) ≡ true
        → is_some (Dict.get ((k, r) ∷ (j, w) ∷ d) m) ≡ true
    kept m h = elim (Bool-cases (k == m)) [ inl e ↦ rw e | inr e ↦ rw e h ]

    skip :
        (m : Key)
        → is_some (Dict.get ((k, r) ∷ d) m) ≡ true
        → is_some (Dict.get ((k, r) ∷ (j, w) ∷ d) m) ≡ true
    skip m h = elim (Bool-cases (k == m)) [
      | inl e ↦ rw e
      | inr e ↦ elim (Bool-cases (j == m)) [ inl f ↦ rw (e, f) | inr f ↦ rw (e, f) (rw e at h) ]
    ]

length-pop_oldest : (d : Rows) (n : ℕ) → length d ≤ suc n → length (pop_oldest d) ≤ n
unfolding pop_oldest
length-pop_oldest [] n h = omega arith
length-pop_oldest ((j, r) ∷ d) n h =
    omega (arith, h, length-pop ((j, r) ∷ d) (min_from j d) (min_from-key j d r))

abbrev pub Bounded : Rows → Type 0
Bounded acc = length acc ≤ max_pending_keys

accumulate-Bounded : (acc : Rows) (k : Key) (r : Row) → Bounded acc → Bounded (accumulate acc k r)
unfolding accumulate
accumulate-Bounded acc k r h = elim (Bool-cases (is_some (Dict.get acc k))) [
  | inl e ↦ rw e (omega (arith, h, length-upsert_old acc k r e))
  | inr e ↦ elim (Bool-cases (full acc)) [
    | inl f ↦
        rw (e, f) (omega (arith, length-upsert (pop_oldest acc) k r, length-pop_oldest acc 999 h))
    | inr f ↦ rw (e, f) (omega (arith, length-upsert acc k r, room f))
  ]
]
  where
    room : full acc ≡ false → length acc < max_pending_keys
    room f = ground (arith, f)

record_all-Bounded :
    (rs : List (Key × Row)) (acc : Rows) → Bounded acc → Bounded (record_all rs acc)
unfolding record_all
record_all-Bounded [] acc h = h
record_all-Bounded ((k, r) ∷ rs) acc h =
    record_all-Bounded rs (accumulate acc k r) (accumulate-Bounded acc k r h)

merge_back-Bounded : (pending acc : Rows) → Bounded acc → Bounded (merge_back pending acc)
unfolding merge_back
merge_back-Bounded [] acc h = h
merge_back-Bounded ((k, r) ∷ pending) acc h = elim (Bool-cases (is_some (Dict.get acc k))) [
  | inl e ↦
      rw e (
        merge_back-Bounded pending (upsert acc k r) (omega (arith, h, length-upsert_old acc k r e)))
  | inr e ↦ elim (Bool-cases (full acc)) [
    | inl f ↦ rw (e, f) (merge_back-Bounded pending acc h)
    | inr f ↦
        rw (e, f)
          (merge_back-Bounded pending (upsert acc k r)
            (omega (arith, length-upsert acc k r, room f)))
  ]
]
  where
    room : full acc ≡ false → length acc < max_pending_keys
    room f = ground (arith, f)

maybe_purge-acc : (now : ℕ) (works : Bool) (s : State) → (maybe_purge now works s).acc ≡ s.acc
unfolding maybe_purge
maybe_purge-acc now works s = ground arith

finish_flush-Bounded :
    (now : ℕ) (works : Bool) (pending : Rows) (written : Rows × Bool) (s : State)
    → Bounded s.acc
    → Bounded (finish_flush now works pending written s).0.acc
unfolding finish_flush
finish_flush-Bounded now works pending (table, true) s h =
    rw (maybe_purge-acc now works (record s { table = table })) h
finish_flush-Bounded now works pending (table, false) s h = merge_back-Bounded pending s.acc h

-- What happens to the counters: requests are recorded, or a flush runs.
pub data Event : Type 0 where
  requested : ℕ → Str → Str → ℕ → ℕ → Json → Event
  flushed : ℕ → Bool → Option ℕ → List (Key × Row) → Event

pub happen : Event → State → State
unfolding record_request flush_now
happen (requested now route model status duration usage) s = record s {
  acc = record_request s.acc now route model status duration usage;
}
happen (flushed now works fails meanwhile) s = (flush_now now works fails meanwhile s).0

pub run : List Event → State → State
unfolding happen
run [] s = s
run (e ∷ es) s = run es (happen e s)

happen-Bounded : (e : Event) (s : State) → Bounded s.acc → Bounded (happen e s).acc
unfolding happen record_request flush_now
happen-Bounded (requested now route model status duration usage) s h =
    accumulate-Bounded s.acc (key_of now route model status) (one_request duration usage) h
happen-Bounded (flushed now works fails meanwhile) s h = by_acc s.acc
  where
    empty_run : Bounded (record_all meanwhile [])
    empty_run = record_all-Bounded meanwhile [] (omega arith)

    by_acc :
        (acc : Rows)
        → Bounded
            (elim acc as (λ _. State × ℕ) [
              | [] ↦ (record s { acc = record_all meanwhile [] }, 0)
              | _ ∷ _ ↦
                  finish_flush now works acc
                    (write fails acc s.table)
                    (record s { acc = record_all meanwhile [] })
            ]).0.acc
    by_acc [] = empty_run
    by_acc (x ∷ xs) =
        finish_flush-Bounded now works (x ∷ xs) (write fails (x ∷ xs) s.table)
          (record s { acc = record_all meanwhile [] }) empty_run

-- However long the database is away, the accumulator never holds more than `MAX_PENDING_KEYS` keys,
-- whatever requests and flushes there were, in which order, and whatever was recorded while a flush
-- was writing.
pub run-Bounded : (es : List Event) (s : State) → Bounded s.acc → Bounded (run es s).acc
unfolding run
run-Bounded [] s h = h
run-Bounded (e ∷ es) s h = run-Bounded es (happen e s) (happen-Bounded e s h)
