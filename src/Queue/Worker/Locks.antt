-- ===== src/Queue/Worker/Locks.antt =====
-- The locks that back the jobs that workers hold.
use device_management.Json.{Json, is_dict}
use device_management.Queue.{Row, Db, QueueJob, PostgresQueue, pending}
use device_management.Queue.Enqueue.{enqueue, first, conflicts, touch, new_row, int_or, upsert}
use device_management.Queue.Claim.{claim_jobs, has_id, claim_row, chosen, to_job}
use device_management.Queue.Settle.{holds}
use device_management.Queue.Rows.{UniqueIds, touch-Gives}
use device_management.Queue.Exclusion.{chosen-pending, claim_row-id, claim_jobs-takes}
use device_management.Queue.Worker.Ids.{
  DistinctBy, DistinctBy-select, DistinctBy-append, DistinctBy-map,
}
use device_management.Queue.Worker.{World, Deployment, hold, claim_next}
use device_management.Prelude.{
  ℕ, String, ◌≡◌, refl, sym, ◌∙◌, subst, ◌≢◌, inl, inr, Bool, true, false, not, ◌||◌, Option, List,
  [], ◌∷◌, ◌++◌, map, Memᴰ, arith, Bool-cases, Option-cases, select, Each, Memᴰ-append_left,
  Memᴰ-map_intro, ◌==◌, nat_eq, string_eq, pair_eq, ℤ, at_least, list_eq,
}

-- a row that the worker has locked for the job
abbrev pub Locked : List Row → String → QueueJob → Type 0
Locked rs w j = (r : Row) × Memᴰ r rs × (holds j.id w r ≡ true)

-- the jobs of a worker: different, and each locked by it
pub record Own (jobs : List Row) (w : String) (js : List QueueJob) : Type 0 where
  pub distinct : DistinctBy (λ (j : QueueJob). j.id) js
  pub locked : Each (Locked jobs w) js

pub record Locks (s : World) : Type 0 where
  pub ids : DistinctBy (λ (r : Row). r.id) s.db.jobs
  pub own : (w : String) → Own s.db.jobs w (s.held w)

pub Own-none : (jobs : List Row) (w : String) → Own jobs w []
Own-none jobs w = record { distinct = tt; locked = λ j m. elim m [ ] }

pub hold-Own :
    (jobs : List Row) (w : String) (js : List QueueJob) (held : String → List QueueJob)
    → Own jobs w js
    → ((v : String) → (v == w) ≡ false → Own jobs v (held v))
    → (v : String) → Own jobs v (hold w js held v)
hold-Own jobs w js held mine others v = elim (Bool-cases (v == w)) [
  | inl e ↦ rw e (subst (λ u. Own jobs u js) (sym ((string_eq.beq_iff v w).0 e)) mine)
  | inr e ↦ rw e (others v e)
]

-- a change of the rows that keeps what is locked for the jobs of a worker
pub Own-map :
    (f : Row → Row) (jobs : List Row) (w : String) (js : List QueueJob)
    → ((j : QueueJob) (r : Row)
        → Memᴰ j js
        → Memᴰ r jobs
        → holds j.id w r ≡ true
        → holds j.id w (f r) ≡ true)
    → Own jobs w js
    → Own (map f jobs) w js
Own-map f jobs w js keep o = record {
  distinct = o.distinct;
  locked =
      λ j mj. let (r, mr, h) = o.locked j mj in (f r, Memᴰ-map_intro f jobs mr, keep j r mj mr h);
}

-- ── enqueue

touch-holds :
    (now id : ℕ) (t : String) (k : Option String) (w : String) (r : Row)
    → holds id w (touch now t k r) ≡ holds id w r
unfolding touch holds
touch-holds now id t k w r = ground arith

Own-append :
    (row : Row) (jobs : List Row) (w : String) (js : List QueueJob)
    → Own jobs w js
    → Own (jobs ++ row ∷ []) w js
Own-append row jobs w js o = record {
  distinct = o.distinct;
  locked = λ j mj. let (r, mr, h) = o.locked j mj in (r, Memᴰ-append_left jobs (row ∷ []) mr, h);
}

module _ (held : String → List QueueJob) where
  pub record Backed (jobs : List Row) : Type 0 where
    pub ids : DistinctBy (λ (r : Row). r.id) jobs
    pub own : (w : String) → Own jobs w (held w)

  upsert-Backed :
      (now : ℕ) (row : Row) (db : Db)
      → Each (λ (r : Row). r.id ≢ row.id) db.jobs
      → Backed db.jobs
      → Backed (upsert now row db).0.jobs
  unfolding upsert
  upsert-Backed now row db fresh b =
      elim (Option-cases (first (conflicts row.topic row.dedupe_key) db.jobs)) [
        | inl new ↦
            rw (new, upsert)
              (record {
                ids = DistinctBy-append (λ (r : Row). r.id) db.jobs row fresh b.ids;
                own = λ w. Own-append row db.jobs w (held w) (b.own w);
              })
        | inr old ↦
            let t = row.topic in
            let k = row.dedupe_key in
            rw (old.1, upsert)
              (record {
                ids =
                    DistinctBy-map (λ (r : Row). r.id) (λ (r : Row). r.id) (touch now t k)
                      (λ r. (touch-Gives now t k r).same_id) db.jobs b.ids;
                own = λ w.
                    Own-map (touch now t k) db.jobs w (held w)
                      (λ j r mj mr h. touch-holds now j.id t k w r ∙ h) (b.own w);
              })
      ]

  pub enqueue-Backed :
      (q : PostgresQueue) (now id : ℕ) (t : String) (p : Json) (k : Option String) (z : ℤ)
      (n : Option ℤ) (db : Db)
      → Each (λ (r : Row). r.id ≢ id) db.jobs
      → Backed db.jobs
      → Backed (enqueue q now id t p k z n db).0.jobs
  unfolding enqueue new_row
  enqueue-Backed q now id t p k z n db fresh b =
      let m = int_or n q.default_max_attempts in
      let row = new_row now id t p k (at_least 1 m) (at_least 0 z) in
      elim (Bool-cases (t == "" || not (is_dict p))) [
        | inl bad ↦ rw bad b
        | inr fine ↦ rw fine (upsert-Backed now row db fresh b)
      ]

-- ── claim_jobs

claim_row-holds :
    (now : ℕ) (w : String) (rows : List Row) (r : Row) (id : ℕ) (v : String)
    → (has_id rows r.id ≡ true → r.status ≡ pending)
    → holds id v r ≡ true
    → holds id v (claim_row now w rows r) ≡ true
unfolding claim_row holds
claim_row-holds now w rows r id v p h = ground arith

pub claim_next-Locks :
    (d : Deployment) (w : String) (skip : ℕ → Bool) (n : ℤ) (s : World)
    → UniqueIds s.db.jobs
    → Locks s
    → Locks (claim_next d w skip n s)
unfolding claim_next claim_jobs to_job
claim_next-Locks d w skip n s unique l =
    let jobs = s.db.jobs in
    let rows = chosen d.queue s.now skip (at_least 1 n) jobs in
    let jobs' = map (claim_row s.now w rows) jobs in
    let ids =
      DistinctBy-map (λ (r : Row). r.id) (λ (r : Row). r.id) (claim_row s.now w rows)
        (claim_row-id s.now w rows) jobs l.ids in
    record {
      ids = ids;
      own =
          hold-Own jobs' w (claim_jobs d.py d.queue s.now w skip n s.db).1 s.held
            (record {
              distinct =
                  DistinctBy-map (λ (r : Row). r.id) (λ (j : QueueJob). j.id) (to_job d.py d.queue)
                    (λ r. refl) (select (λ (r : Row). has_id rows r.id) jobs')
                    (DistinctBy-select (λ (r : Row). r.id) (λ (r : Row). has_id rows r.id) jobs'
                      ids);
              locked = λ j mj.
                  let (r, t, mr, c, mt, h, rest, a, b) =
                    claim_jobs-takes d.py d.queue s.now w skip n s.db unique j mj in
                  (t, mt, h);
            })
            (λ v e.
              Own-map (claim_row s.now w rows) jobs v (s.held v)
                (λ j r mj mr.
                  claim_row-holds s.now w rows r j.id v
                    (chosen-pending d.queue s.now skip (at_least 1 n) jobs r unique mr))
                (l.own v));
    }
