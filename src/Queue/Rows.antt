-- ===== src/Queue/Rows.antt =====
-- What a row keeps under each statement, and what a statement does to the rows that it does not
-- select.
use device_management.Queue.{
  pending, processing, is_pending, is_processing, is_done, is_dead, Row, QueueJob,
}
use device_management.Queue.Enqueue.{touch}
use device_management.Queue.Claim.{has_id, claim_row, order_by, insert_by, earlier}
use device_management.Queue.Settle.{holds, ack_row, retry_row, dead_row}
use device_management.Prelude.{
  ℕ, ◌≤◌, ◌<◌, String, ◌≡◌, refl, sym, ap, ◌∙◌, subst, inl, inr, true, false, ◌||◌, Option, none,
  List, [], ◌∷◌, map, Memᴰ, arith, Bool-cases, is_some, Each, Memᴰ-map, ◌==◌, nat_eq, string_eq,
  pair_eq,
}

-- A row is locked exactly while it is processed, a row that is finished says when, and a row that
-- waits has an attempt left.
pub record RowOk (r : Row) : Type 0 where
  pub locked : r.status ≡ processing → (is_some r.lock_owner ≡ true) × (is_some r.locked_at ≡ true)
  pub free : is_processing r.status ≡ false → (r.lock_owner ≡ none) × (r.locked_at ≡ none)
  pub finished : (is_done r.status || is_dead r.status) ≡ true → is_some r.completed_at ≡ true
  pub unfinished : (is_pending r.status || is_processing r.status) ≡ true → r.completed_at ≡ none
  pub left : r.status ≡ pending → r.attempts < r.max_attempts
  pub bounded : r.attempts ≤ r.max_attempts
  pub positive : 0 < r.max_attempts

abbrev pub UniqueIds : List Row → Type 0
UniqueIds rs = (r s : Row) → Memᴰ r rs → Memᴰ s rs → r.id ≡ s.id → r ≡ s

pub touch-RowOk :
    (now : ℕ) (t : String) (k : Option String) (r : Row) → RowOk r → RowOk (touch now t k r)
unfolding touch
touch-RowOk now t k r h = ground arith

pub ack_row-RowOk : (now id : ℕ) (w : String) (r : Row) → RowOk r → RowOk (ack_row now id w r)
unfolding ack_row
ack_row-RowOk now id w r h = ground arith

pub dead_row-RowOk :
    (now id : ℕ) (w : String) (e : List ℕ) (r : Row) → RowOk r → RowOk (dead_row now id w e r)
unfolding dead_row
dead_row-RowOk now id w e r h = ground arith

pub retry_row-RowOk :
    (now id : ℕ) (w : String) (n : ℕ) (e : List ℕ) (r : Row)
    → (holds id w r ≡ true → r.attempts < r.max_attempts)
    → RowOk r
    → RowOk (retry_row now id w n e r)
unfolding retry_row
retry_row-RowOk now id w n e r left h = ground arith

pub claim_row-RowOk :
    (now : ℕ) (w : String) (c : List Row) (r : Row)
    → (has_id c r.id ≡ true → r.status ≡ pending)
    → RowOk r
    → RowOk (claim_row now w c r)
unfolding claim_row
claim_row-RowOk now w c r p h = ground arith

-- A worker's job and the row that the worker has locked for it agree on the attempts.
abbrev pub Matches : List Row → String → QueueJob → Type 0
Matches rs w j =
    (r : Row)
    → Memᴰ r rs
    → holds j.id w r ≡ true
    → (r.attempts ≡ j.attempts) × (r.max_attempts ≡ j.max_attempts)

-- A change of a row that locks it for no worker.
pub record Gives (f : Row → Row) (r : Row) : Type 0 where
  pub same_id : (f r).id ≡ r.id
  pub takes_none :
      (id : ℕ) (w : String)
      → holds id w (f r) ≡ true
      → (holds id w r ≡ true)
        × ((f r).attempts ≡ r.attempts)
        × ((f r).max_attempts ≡ r.max_attempts)

pub touch-Gives : (now : ℕ) (t : String) (k : Option String) (r : Row) → Gives (touch now t k) r
unfolding touch holds
touch-Gives now t k r = record { same_id = ground arith; takes_none = λ id w h. ground arith }

pub ack_row-Gives : (now id : ℕ) (w : String) (r : Row) → Gives (ack_row now id w) r
unfolding ack_row
ack_row-Gives now id w r = record { same_id = ground arith; takes_none = λ id' w' h. ground arith }

pub dead_row-Gives :
    (now id : ℕ) (w : String) (e : List ℕ) (r : Row) → Gives (dead_row now id w e) r
unfolding dead_row
dead_row-Gives now id w e r = record {
  same_id = ground arith;
  takes_none = λ id' w' h. ground arith;
}

pub retry_row-Gives :
    (now id : ℕ) (w : String) (n : ℕ) (e : List ℕ) (r : Row) → Gives (retry_row now id w n e) r
unfolding retry_row
retry_row-Gives now id w n e r = record {
  same_id = ground arith;
  takes_none = λ id' w' h. ground arith;
}

pub UniqueIds-map :
    (f : Row → Row) (rs : List Row)
    → ((r : Row) → (f r).id ≡ r.id)
    → UniqueIds rs
    → UniqueIds (map f rs)
UniqueIds-map f rs same u r s mr ms e =
    let (r', mr', er) = Memᴰ-map f rs mr in
    let (s', ms', es) = Memᴰ-map f rs ms in
    let q = u r' s' mr' ms' (cc (er, es, e, same r', same s')) in cc (er, es, q)

pub Matches-map :
    (f : Row → Row) (rs : List Row) (w : String) (j : QueueJob)
    → ((r : Row) → Gives f r)
    → Matches rs w j
    → Matches (map f rs) w j
Matches-map f rs w j gives m r mr h =
    let (r', mr', e) = Memᴰ-map f rs mr in
    let g = (gives r').takes_none j.id w (subst (λ x. holds j.id w x ≡ true) e h) in
    let old = m r' mr' g.0 in
    (ap (λ (x : Row). x.attempts) e ∙ g.1 ∙ old.0, ap (λ (x : Row). x.max_attempts) e ∙ g.2 ∙ old.1)

pub Each-map :
    {P : Row → Type 0} (f : Row → Row) (rs : List Row)
    → ((r : Row) → Memᴰ r rs → P r → P (f r))
    → Each P rs
    → Each P (map f rs)
Each-map {P} f rs keep all r mr =
    let (r', mr', e) = Memᴰ-map f rs mr in subst P (sym e) (keep r' mr' (all r' mr'))

pub has_id→Memᴰ :
    (rs : List Row) (id : ℕ) → has_id rs id ≡ true → (s : Row) × Memᴰ s rs × (s.id ≡ id)
has_id→Memᴰ [] id h = absurd (cc h)
has_id→Memᴰ (r ∷ rs) id h = elim (Bool-cases (r.id == id)) [
  | inl e ↦ (r, Memᴰ.head refl, ground arith)
  | inr e ↦ let (s, m, q) = has_id→Memᴰ rs id (rw e at h) in (s, Memᴰ.tail m, q)
]

insert_by-Memᴰ : (r : Row) (rs : List Row) {x : Row} → Memᴰ x (insert_by r rs) → Memᴰ x (r ∷ rs)
unfolding insert_by
insert_by-Memᴰ r [] m = m
insert_by-Memᴰ r (s ∷ ss) {x} m = elim (Bool-cases (earlier r s)) [
  | inl e ↦ rw e at m
  | inr e ↦ swapped (rw e at m) (insert_by-Memᴰ r ss)
]
  where
    inner : (Memᴰ x (r ∷ ss)) → Memᴰ x (r ∷ s ∷ ss)
    inner (Memᴰ.head p) = Memᴰ.head p
    inner (Memᴰ.tail t) = Memᴰ.tail (Memᴰ.tail t)

    swapped :
        Memᴰ x (s ∷ insert_by r ss)
        → (Memᴰ x (insert_by r ss) → Memᴰ x (r ∷ ss))
        → Memᴰ x (r ∷ s ∷ ss)
    swapped (Memᴰ.head p) ih = Memᴰ.tail (Memᴰ.head p)
    swapped (Memᴰ.tail t) ih = inner (ih t)

pub order_by-Memᴰ : (rs : List Row) {x : Row} → Memᴰ x (order_by rs) → Memᴰ x rs
unfolding order_by
order_by-Memᴰ [] m = m
order_by-Memᴰ (r ∷ rs) {x} m = later (insert_by-Memᴰ r (order_by rs) m) (order_by-Memᴰ rs)
  where
    later : Memᴰ x (r ∷ order_by rs) → (Memᴰ x (order_by rs) → Memᴰ x rs) → Memᴰ x (r ∷ rs)
    later (Memᴰ.head p) ih = Memᴰ.head p
    later (Memᴰ.tail t) ih = Memᴰ.tail (ih t)
