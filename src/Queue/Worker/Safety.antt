-- ===== src/Queue/Worker/Safety.antt =====
-- What holds in every state that clients and workers can reach together.
use device_management.Queue.{QueueJob, Row}
use device_management.Queue.Rows.{RowOk, UniqueIds, Matches}
use device_management.Queue.Worker.{
  World, Deployment, settle, hold, work_next, Step, tick, client, claims, works, stops, Reach, here,
  next, start,
}
use device_management.Queue.Worker.Ids.{DistinctBy}
use device_management.Queue.Worker.Locks.{Locks}
use device_management.Queue.Worker.Backed.{Step-Locks, start-Locks}
use device_management.Queue.Settle.{holds}
use device_management.Queue.Worker.Kept.{enqueue-Good}
use device_management.Queue.Worker.Invariant.{Inv}
use device_management.Queue.Worker.Claims.{claim_next-Inv}
use device_management.Queue.Worker.Settles.{settle-Settles, Each-hold_rest}
use device_management.Prelude.{
  ℕ, String, ◌≡◌, refl, sym, subst, inl, inr, true, Option, List, [], ◌∷◌, Memᴰ, Bool-cases, Each,
  ◌==◌, nat_eq, string_eq, pair_eq, list_eq,
}

work_next-Inv :
    (d : Deployment) (sample : ℕ) (w : String) (job : QueueJob) (rest : List QueueJob)
    (failure : Option (List ℕ)) (s : World)
    → s.held w ≡ job ∷ rest
    → Inv s
    → Inv (work_next d sample w job rest failure s)
unfolding work_next
work_next-Inv d sample w job rest failure s top v =
    let mine = v.matches w job (subst (Memᴰ job) (sym top) (Memᴰ.head refl)) in
    let k = settle-Settles d s.now sample w job failure s.db v.tables mine in
    record {
      tables = k.tables;
      matches =
          Each-hold_rest w job rest s.held top
            (Matches (settle d s.now sample w job failure s.db).0.jobs)
            (λ u j m. k.matches u j (v.matches u j m)) (settle d s.now sample w job failure s.db).1;
    }

pub Each-hold_none :
    (w : String) (held : String → List QueueJob) (P : String → QueueJob → Type 0)
    → ((v : String) → Each (P v) (held v))
    → (v : String) → Each (P v) (hold w [] held v)
Each-hold_none w held P all v = elim (Bool-cases (v == w)) [
  | inl e ↦ rw e (λ j m. elim m [ ])
  | inr e ↦ rw e (all v)
]

pub Step-Inv : (d : Deployment) {s t : World} → Step d s t → Inv s → Inv t
Step-Inv d (tick n) v = record { tables = v.tables; matches = v.matches }
Step-Inv d {s} (client id topic payload key delay limit fresh) v =
    let g =
      enqueue-Good s.held d.queue s.now id topic payload key delay limit s.db fresh
        (record { tables = v.tables; matches = v.matches }) in
    record { tables = g.tables; matches = g.matches }
Step-Inv d {s} (claims w skip n idle) v = claim_next-Inv d w skip n s v
Step-Inv d {s} (works sample w job rest failure top) v =
    work_next-Inv d sample w job rest failure s top v
Step-Inv d {s} (stops w) v = record {
  tables = v.tables;
  matches = Each-hold_none w s.held (Matches s.db.jobs) v.matches;
}

pub Reach-Inv : (d : Deployment) {s t : World} → Reach d s t → Inv s → Inv t
Reach-Inv d here v = v
Reach-Inv d (next r st) v = Step-Inv d st (Reach-Inv d r v)

pub start-Inv : Inv start
start-Inv = record {
  tables = record { rows = λ r m. elim m [ ]; unique = λ r s m n e. elim m [ ] };
  matches = λ w j m. elim m [ ];
}

-- In every state that any interleaving of clients, workers, stops and losses of workers reaches
-- from the empty tables, every row satisfies its invariant: it is locked exactly while it is
-- processed, it was attempted at most `max_attempts` times, and if it is pending it has an attempt
-- left.
pub Reach-RowOk : (d : Deployment) {s : World} → Reach d start s → Each RowOk s.db.jobs
Reach-RowOk d r = (Reach-Inv d r start-Inv).tables.rows

Reach-Locks : (d : Deployment) {s : World} → Reach d start s → Locks s
Reach-Locks d here = start-Locks
Reach-Locks d (next r st) =
    Step-Locks d st (Reach-Inv d r start-Inv).tables.unique (Reach-Locks d r)

-- the row of a job that a worker holds: locked by that worker, with the job's attempts
abbrev pub Backs : List Row → String → QueueJob → Type 0
Backs rs w j =
    (r : Row) × Memᴰ r rs
    × (holds j.id w r ≡ true)
    × (r.attempts ≡ j.attempts)
    × (r.max_attempts ≡ j.max_attempts)

-- In every such state no two rows have one id, no worker holds two jobs of one id, and for each job
-- that a worker still has to process there is a row of the job's id that is processing, is locked by
-- that worker, and has the attempts and the bound on them that the job carries.
pub Reach-Matches :
    (d : Deployment) {s : World}
    → Reach d start s
    → UniqueIds s.db.jobs
      × ((w : String)
          → DistinctBy (λ (j : QueueJob). j.id) (s.held w) × Each (Backs s.db.jobs w) (s.held w))
Reach-Matches d r =
    let v = Reach-Inv d r start-Inv in
    let l = Reach-Locks d r in
    (
      v.tables.unique,
      λ w. (
        (l.own w).distinct,
        λ j mj.
            let (row, m, h) = (l.own w).locked j mj in
            let (tries, limit) = v.matches w j mj row m h in (row, m, h, tries, limit),
      ),
    )
