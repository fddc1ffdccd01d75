-- ===== src/Llm/Traffic/Conservation.antt =====
-- What a flush does to the number of requests that the accumulator and the table hold together.
use device_management.Prelude.Dict
use device_management.Prelude.Dict.{Dict}
use device_management.Llm.Throttle.{second}
use device_management.Llm.Traffic.{
  Key, Row, Rows, State, max_pending_keys, purge_every_seconds, merge, upsert, full, record_all,
  write, merge_back, maybe_purge, finish_flush, flush_now,
}
use device_management.Llm.Traffic.Bound.{Bounded, length-upsert}
use device_management.Prelude.{
  ℕ, zero, suc, ◌+◌, ◌*◌, ◌≤◌, ◌<◌, ◌≡◌, refl, sym, subst, inl, inr, Bool, true, false, none, some,
  List, [], ◌∷◌, arith, if◌then◌else◌, lt→ltb, Bool-cases, is_some, false-ne-true, length, take,
  ◌==◌, nat_eq, string_eq, pair_eq, list_eq,
}

-- the requests that rows count
abbrev pub total : Rows → ℕ
total [] = 0
total ((k, r) ∷ d) = r.count + total d

total-upsert : (d : Rows) (k : Key) (r : Row) → total (upsert d k r) ≡ total d + r.count
unfolding upsert merge
total-upsert [] k r = omega arith
total-upsert ((j, w) ∷ d) k r = elim (Bool-cases (j == k)) [
  | inl e ↦ rw e (omega arith)
  | inr e ↦ rw e (omega (arith, total-upsert d k r))
]

write-all :
    (pending table : Rows)
    → (total (write none pending table).0 ≡ total table + total pending)
      × ((write none pending table).1 ≡ true)
unfolding write
write-all [] table = (omega arith, refl)
write-all ((k, r) ∷ pending) table =
    let (sum, done) = write-all pending (upsert table k r) in
    (omega (arith, sum, total-upsert table k r), done)

write-some :
    (n : ℕ) (pending table : Rows)
    → n < length pending
    → (total (write (some n) pending table).0 ≡ total table + total (take n pending))
      × ((write (some n) pending table).1 ≡ false)
unfolding write
write-some n [] table h = absurd (omega (arith, h))
write-some zero ((k, r) ∷ pending) table h = (omega arith, refl)
write-some (suc n) ((k, r) ∷ pending) table h =
    let (sum, done) = write-some n pending (upsert table k r) (omega (arith, h)) in
    (omega (arith, sum, total-upsert table k r), done)

total-merge_back :
    (pending acc : Rows)
    → length pending + length acc ≤ max_pending_keys
    → total (merge_back pending acc) ≡ total pending + total acc
unfolding merge_back
total-merge_back [] acc h = omega arith
total-merge_back ((k, r) ∷ pending) acc h = rw (one (is_some (Dict.get acc k)) (full acc) room) (
    omega (
      arith,
      total-merge_back pending (upsert acc k r) (omega (arith, h, length-upsert acc k r)),
      total-upsert acc k r,
    ))
  where
    room : full acc ≡ false
    room = ground (arith, h)

    one :
        (there no_room : Bool)
        → no_room ≡ false
        → (if there then upsert acc k r else if no_room then acc else upsert acc k r)
          ≡ upsert acc k r
    one true n e = refl
    one false n e = rw e

finish_flush-done :
    (now : ℕ) (works : Bool) (pending : Rows) (written : Rows × Bool) (s : State)
    → written.1 ≡ true
    → now < s.last_purge + purge_every_seconds * second
    → finish_flush now works pending written s ≡ (record s { table = written.0 }, length pending)
unfolding finish_flush maybe_purge
finish_flush-done now works pending (table, true) s h early =
    rw (lt→ltb now (s.last_purge + purge_every_seconds * second) early)
finish_flush-done now works pending (table, false) s h early = absurd (false-ne-true h)

finish_flush-failed :
    (now : ℕ) (works : Bool) (pending : Rows) (written : Rows × Bool) (s : State)
    → written.1 ≡ false
    → finish_flush now works pending written s
      ≡ (record s { acc = merge_back pending s.acc; table = written.0 }, 0)
unfolding finish_flush
finish_flush-failed now works pending (table, true) s h = absurd (false-ne-true (sym h))
finish_flush-failed now works pending (table, false) s h = refl

-- A flush that works, when no purge is due, moves every request that the accumulator counted into
-- the table, once, and returns the number of rows; the accumulator then holds what was recorded in
-- the meantime.
pub flush_now-conserves :
    (now : ℕ) (works : Bool) (meanwhile : List (Key × Row)) (s : State)
    → now < s.last_purge + purge_every_seconds * second
    → let r = flush_now now works none meanwhile s in
      (total r.0.table ≡ total s.table + total s.acc)
      × (r.0.acc ≡ record_all meanwhile [])
      × (r.1 ≡ length s.acc)
unfolding flush_now
flush_now-conserves now works meanwhile s early = by_acc s.acc
  where
    mid : State
    mid = record s { acc = record_all meanwhile [] }

    Result : State × ℕ → Rows → Type 0
    Result r acc =
        (total r.0.table ≡ total s.table + total acc)
        × (r.0.acc ≡ record_all meanwhile [])
        × (r.1 ≡ length acc)

    by_acc :
        (acc : Rows)
        → Result
            (elim acc as (λ _. State × ℕ) [
              | [] ↦ (mid, 0)
              | _ ∷ _ ↦ finish_flush now works acc (write none acc s.table) mid
            ])
            acc
    by_acc [] = (omega arith, refl, refl)
    by_acc (x ∷ xs) =
        let (sum, done) = write-all (x ∷ xs) s.table in
        subst (λ r. Result r (x ∷ xs)) (sym (finish_flush-done now works (x ∷ xs) _ mid done early))
          (sum, refl, refl)

-- A flush that fails counts twice what it had written before: the requests of those rows are in the
-- table and come back into the accumulator with the rest.
pub flush_now-repeats :
    (now : ℕ) (works : Bool) (written : ℕ) (s : State)
    → Bounded s.acc
    → written < length s.acc
    → let r = flush_now now works (some written) [] s in
      total r.0.table + total r.0.acc ≡ total s.table + total s.acc + total (take written s.acc)
unfolding flush_now record_all
flush_now-repeats now works written s bound h = by_acc s.acc bound h
  where
    mid : State
    mid = record s { acc = [] }

    by_acc :
        (acc : Rows)
        → Bounded acc
        → written < length acc
        → let r = elim acc as (λ _. State × ℕ) [
          | [] ↦ (mid, 0)
          | _ ∷ _ ↦ finish_flush now works acc (write (some written) acc s.table) mid
        ] in
          total r.0.table + total r.0.acc ≡ total s.table + total acc + total (take written acc)
    by_acc [] b h = absurd (omega (arith, h))
    by_acc (x ∷ xs) b h =
        let (sum, failed) = write-some written (x ∷ xs) s.table h in
        subst
          (λ (r : State × ℕ).
            total r.0.table + total r.0.acc
            ≡ total s.table + total (x ∷ xs) + total (take written (x ∷ xs)))
          (sym (finish_flush-failed now works (x ∷ xs) _ mid failed))
          (omega (arith, sum, total-merge_back (x ∷ xs) [] (omega (arith, b))))
