-- ===== src/Queue/Worker/Backed.antt =====
-- Every job that a worker holds is locked for it, in whatever order clients and workers go on.
use device_management.Queue.{Row, Db, QueueJob, Schema}
use device_management.Queue.Settle.{
  holds, ack, retry, move_to_dead_letter, ack_row, retry_row, dead_row, retry_delay_seconds,
}
use device_management.Queue.Rows.{UniqueIds, ack_row-Gives, retry_row-Gives, dead_row-Gives}
use device_management.Queue.Exclusion.{holds-id, holds-owner}
use device_management.Queue.Worker.Ids.{DistinctBy, DistinctBy-map}
use device_management.Queue.Worker.{
  World, Deployment, settle, after_letter, work_next, Step, tick, client, claims, works, stops,
  start,
}
use device_management.Queue.Worker.Locks.{
  Own, Locks, Own-none, hold-Own, Own-map, enqueue-Backed, claim_next-Locks,
}
use device_management.Prelude.{
  ℕ, String, ◌≡◌, refl, sym, ap, ◌∙◌, subst, ◌≢◌, inl, inr, Bool, true, false, Option, none, some,
  List, [], ◌∷◌, map, Memᴰ, leb, if◌then◌else◌, Bool-cases, false-ne-true, Each, nat_eq, string_eq,
  pair_eq, list_eq,
}

-- What the end of a job does to the rows: it changes none but those locked for the job.
record Releases (w : String) (id : ℕ) (jobs jobs' : List Row) : Type 0 where
  change : Row → Row
  mapped : jobs' ≡ map change jobs
  same_id : (r : Row) → (change r).id ≡ r.id
  others : (r : Row) → holds id w r ≡ false → change r ≡ r

map-same : (rs : List Row) → rs ≡ map (λ (r : Row). r) rs
map-same [] = refl
map-same (r ∷ rs) = ap (λ l. r ∷ l) (map-same rs)

ack_row-other : (now id : ℕ) (w : String) (r : Row) → holds id w r ≡ false → ack_row now id w r ≡ r
unfolding ack_row
ack_row-other now id w r h = rw h refl

retry_row-other :
    (now id : ℕ) (w : String) (n : ℕ) (e : List ℕ) (r : Row)
    → holds id w r ≡ false
    → retry_row now id w n e r ≡ r
unfolding retry_row
retry_row-other now id w n e r h = rw h refl

dead_row-other :
    (now id : ℕ) (w : String) (e : List ℕ) (r : Row)
    → holds id w r ≡ false
    → dead_row now id w e r ≡ r
unfolding dead_row
dead_row-other now id w e r h = rw h refl

letter-Releases :
    (schema : Schema) (now : ℕ) (job : QueueJob) (w : String) (e : List ℕ) (db : Db)
    → Releases w job.id db.jobs (after_letter (move_to_dead_letter schema now job w e db)).0.jobs
unfolding move_to_dead_letter
letter-Releases schema now job w e db = elim (Bool-cases schema.dead_letters_unique_job) [
  | inl u ↦ rw u (record {
    change = dead_row now job.id w e;
    mapped = refl;
    same_id = λ r. (dead_row-Gives now job.id w e r).same_id;
    others = dead_row-other now job.id w e;
  })
  | inr u ↦ rw u (record {
    change = λ r. r;
    mapped = map-same db.jobs;
    same_id = λ r. refl;
    others = λ r h. refl;
  })
]

settle-Releases :
    (d : Deployment) (now sample : ℕ) (w : String) (job : QueueJob) (failure : Option (List ℕ))
    (db : Db)
    → Releases w job.id db.jobs (settle d now sample w job failure db).0.jobs
unfolding settle ack retry
settle-Releases d now sample w job none db = record {
  change = ack_row now job.id w;
  mapped = refl;
  same_id = λ r. (ack_row-Gives now job.id w r).same_id;
  others = ack_row-other now job.id w;
}
settle-Releases d now sample w job (some e) db =
    elim (Bool-cases (leb job.max_attempts job.attempts)) [
      | inl last ↦ rw last (letter-Releases d.schema now job w e db)
      | inr more ↦
          let delay = retry_delay_seconds d.queue sample job.attempts in
          rw more (record {
            change = retry_row now job.id w delay e;
            mapped = refl;
            same_id = λ r. (retry_row-Gives now job.id w delay e r).same_id;
            others = retry_row-other now job.id w delay e;
          })
    ]

-- a row that is locked for another job, or by another worker, is not locked for this one
holds-other :
    (w v : String) (id id' : ℕ) (r : Row)
    → holds id' v r ≡ true
    → (v ≡ w → id' ≢ id)
    → holds id w r ≡ false
holds-other w v id id' r h apart = elim (Bool-cases (holds id w r)) [
  | inr e ↦ e
  | inl e ↦ absurd (
      apart (some_inj (sym (holds-owner id' v r h) ∙ holds-owner id w r e))
        (sym (holds-id id' v r h) ∙ holds-id id w r e))
]
  where
    some_inj : {a b : String} → some a ≡ some b → a ≡ b
    some_inj e = cc

Releases-Own :
    (w v : String) (id : ℕ) (jobs jobs' : List Row) (js : List QueueJob)
    → Releases w id jobs jobs'
    → (v ≡ w → Each (λ (j : QueueJob). j.id ≢ id) js)
    → Own jobs v js
    → Own jobs' v js
Releases-Own w v id jobs jobs' js m apart o =
    subst (λ l. Own l v js) (sym m.mapped)
      (Own-map m.change jobs v js
        (λ j r mj mr h.
          subst (λ x. holds j.id v x ≡ true)
            (sym (m.others r (holds-other w v id j.id r h (λ e. apart e j mj)))) h)
        o)

work_next-Locks :
    (d : Deployment) (sample : ℕ) (w : String) (job : QueueJob) (rest : List QueueJob)
    (failure : Option (List ℕ)) (s : World)
    → s.held w ≡ job ∷ rest
    → Locks s
    → Locks (work_next d sample w job rest failure s)
unfolding work_next
work_next-Locks d sample w job rest failure s top l =
    let jobs' = (settle d s.now sample w job failure s.db).0.jobs in
    let m = settle-Releases d s.now sample w job failure s.db in
    let mine = subst (Own s.db.jobs w) top (l.own w) in
    let kept =
      Releases-Own w w job.id s.db.jobs jobs' rest m (λ e. mine.distinct.0)
        (record { distinct = mine.distinct.1; locked = λ j mj. mine.locked j (Memᴰ.tail mj) }) in
    record {
      ids = subst (DistinctBy (λ (r : Row). r.id)) (sym m.mapped) (
          DistinctBy-map (λ (r : Row). r.id) (λ (r : Row). r.id) m.change m.same_id s.db.jobs
            l.ids);
      own =
          hold-Own jobs' w (if (settle d s.now sample w job failure s.db).1 then rest else [])
            s.held (left jobs' kept (settle d s.now sample w job failure s.db).1)
            (λ v e.
              Releases-Own w v job.id s.db.jobs jobs' (s.held v) m
                (λ q. absurd (false-ne-true (sym e ∙ (string_eq.beq_iff v w).1 q))) (l.own v));
    }
  where
    left : (jobs' : List Row) → Own jobs' w rest → (b : Bool) → Own jobs' w (if b then rest else [])
    left jobs' o true = o
    left jobs' o false = Own-none jobs' w

pub Step-Locks :
    (d : Deployment) {s t : World} → Step d s t → UniqueIds s.db.jobs → Locks s → Locks t
Step-Locks d (tick n) u l = record { ids = l.ids; own = l.own }
Step-Locks d {s} (client id topic payload key delay limit fresh) u l =
    let b =
      enqueue-Backed s.held d.queue s.now id topic payload key delay limit s.db fresh
        (record { ids = l.ids; own = l.own }) in
    record { ids = b.ids; own = b.own }
Step-Locks d {s} (claims w skip n idle) u l = claim_next-Locks d w skip n s u l
Step-Locks d {s} (works sample w job rest failure top) u l =
    work_next-Locks d sample w job rest failure s top l
Step-Locks d {s} (stops w) u l = record {
  ids = l.ids;
  own = hold-Own s.db.jobs w [] s.held (Own-none s.db.jobs w) (λ v e. l.own v);
}

pub start-Locks : Locks start
start-Locks = record { ids = tt; own = λ w. Own-none [] w }
