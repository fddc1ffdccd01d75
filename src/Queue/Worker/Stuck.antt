-- ===== src/Queue/Worker/Stuck.antt =====
-- The jobs of a worker that stops. `claim_jobs` selects pending rows only, so the lock's lifetime
-- frees none of them.
use mathlib.Core.Option.{some-injective}
use device_management.Json.{Json, is_dict}
use device_management.Queue.{Row, Db, QueueJob, PostgresQueue, Schema}
use device_management.Queue.Enqueue.{enqueue, upsert, first, conflicts, touch, new_row, int_or}
use device_management.Queue.Claim.{claim_jobs, has_id, claim_row, chosen}
use device_management.Queue.Settle.{
  holds, ack, retry, move_to_dead_letter, ack_row, retry_row, dead_row, retry_delay_seconds,
}
use device_management.Queue.Rows.{UniqueIds}
use device_management.Queue.Exclusion.{
  holds-id, holds-owner, chosen-pending, claim_jobs-takes, held_not_claimable,
}
use device_management.Queue.Worker.{
  World, Deployment, settle, after_letter, claim_next, work_next, Step, tick, client, claims, works,
  stops, Reach, here, next, start,
}
use device_management.Queue.Worker.Invariant.{Inv}
use device_management.Queue.Worker.Settles.{Each-hold_rest}
use device_management.Queue.Worker.Safety.{Reach-Inv, start-Inv, Each-hold_none}
use device_management.Prelude.{
  ℕ, String, ◌≡◌, refl, sym, ◌∙◌, subst, ◌≢◌, inl, inr, Bool, true, false, not, ◌||◌, Option, none,
  some, List, [], ◌∷◌, map, Memᴰ, arith, leb, Bool-cases, Option-cases, Each, Memᴰ-append_left,
  Memᴰ-map_intro, ◌==◌, nat_eq, string_eq, pair_eq, ℤ, at_least,
}

module _ (id : ℕ) (w : String) where
  -- some row is locked for the job
  abbrev pub Locked : List Row → Type 0
  Locked jobs = (r : Row) × Memᴰ r jobs × (holds id w r ≡ true)

  -- The row of the job is locked by the worker, which has no such job left.
  record Stranded (s : World) : Type 0 where
    locked : Locked s.db.jobs
    forgotten : (v : String) → Each (λ (j : QueueJob). v ≡ w → j.id ≢ id) (s.held v)

  -- a statement that leaves the row locked
  Locked-map :
      (f : Row → Row) (jobs : List Row)
      → ((r : Row) → Memᴰ r jobs → holds id w r ≡ true → holds id w (f r) ≡ true)
      → Locked jobs
      → Locked (map f jobs)
  Locked-map f jobs keep l = (f l.0, Memᴰ-map_intro f jobs l.1, keep l.0 l.1 l.2)

  touch-locked :
      (now : ℕ) (t : String) (k : Option String) (r : Row)
      → holds id w r ≡ true
      → holds id w (touch now t k r) ≡ true
  unfolding touch holds
  touch-locked now t k r h = ground arith

  Locked-upsert :
      (now : ℕ) (row : Row) (db : Db) → Locked db.jobs → Locked (upsert now row db).0.jobs
  unfolding upsert
  Locked-upsert now row db l =
      elim (Option-cases (first (conflicts row.topic row.dedupe_key) db.jobs)) [
        | inl new ↦ rw (new, upsert) (l.0, Memᴰ-append_left db.jobs (row ∷ []) l.1, l.2)
        | inr old ↦
            rw (old.1, upsert)
              (Locked-map (touch now row.topic row.dedupe_key) db.jobs
                (λ r m. touch-locked now row.topic row.dedupe_key r) l)
      ]

  Locked-enqueue :
      (q : PostgresQueue) (now new_id : ℕ) (t : String) (p : Json) (k : Option String) (z : ℤ)
      (n : Option ℤ) (db : Db)
      → Locked db.jobs
      → Locked (enqueue q now new_id t p k z n db).0.jobs
  unfolding enqueue
  Locked-enqueue q now new_id t p k z n db l = elim (Bool-cases (t == "" || not (is_dict p))) [
    | inl bad ↦ rw bad l
    | inr fine ↦ rw fine (
        Locked-upsert now
          (new_row now new_id t p k (at_least 1 (int_or n q.default_max_attempts)) (at_least 0 z))
          db l)
  ]

  claim_row-locked :
      (now : ℕ) (v : String) (rows : List Row) (r : Row)
      → has_id rows r.id ≡ false
      → holds id w r ≡ true
      → holds id w (claim_row now v rows r) ≡ true
  unfolding claim_row
  claim_row-locked now v rows r out h = ground arith

  held_not_chosen :
      (q : PostgresQueue) (now : ℕ) (skip : ℕ → Bool) (limit : ℕ) (jobs : List Row) (r : Row)
      → UniqueIds jobs
      → Memᴰ r jobs
      → holds id w r ≡ true
      → has_id (chosen q now skip limit jobs) r.id ≡ false
  unfolding holds
  held_not_chosen q now skip limit jobs r u m h =
      elim (Bool-cases (has_id (chosen q now skip limit jobs) r.id)) [
        | inr out ↦ out
        | inl has ↦ let p = chosen-pending q now skip limit jobs r u m has in ground arith
      ]

  claim_next-Stranded :
      (d : Deployment) (v : String) (skip : ℕ → Bool) (n : ℤ) (s : World)
      → Inv s
      → Stranded s
      → Stranded (claim_next d v skip n s)
  unfolding claim_next claim_jobs
  claim_next-Stranded d v skip n s inv g =
      let u = inv.tables.unique in
      let rows = chosen d.queue s.now skip (at_least 1 n) s.db.jobs in
      record {
        locked =
            Locked-map (claim_row s.now v rows) s.db.jobs
              (λ r m h.
                claim_row-locked s.now v rows r
                  (held_not_chosen d.queue s.now skip (at_least 1 n) s.db.jobs r u m h) h)
              g.locked;
        forgotten = λ x. elim (Bool-cases (x == v)) [
          | inr e ↦ rw e (g.forgotten x)
          | inl e ↦ rw e (λ j mj p q.
              let (r, t, mr, c, mt, ht, ej, a, b) =
                claim_jobs-takes d.py d.queue s.now v skip n s.db u j mj in
              let (l, ml, hl) = g.locked in
              let same = u l r ml mr (holds-id id w l hl ∙ sym q ∙ ej) in
              cc (
                c,
                held_not_claimable d.queue s.now skip id w r
                    (subst (λ (y : Row). holds id w y ≡ true) same hl),
              ))
        ];
      }

  module _ (job : QueueJob) (v : String) (other : v ≡ w → job.id ≢ id) where
    not_mine : (r : Row) → holds id w r ≡ true → holds job.id v r ≡ false
    not_mine r h = elim (Bool-cases (holds job.id v r)) [
      | inr free ↦ free
      | inl taken ↦
          let owners = sym (holds-owner job.id v r taken) ∙ holds-owner id w r h in
          absurd (
            other (some-injective v w owners) (sym (holds-id job.id v r taken) ∙ holds-id id w r h))
    ]

    ack_row-locked :
        (now : ℕ) (r : Row) → holds id w r ≡ true → holds id w (ack_row now job.id v r) ≡ true
    unfolding ack_row
    ack_row-locked now r h = rw (not_mine r h) h

    dead_row-locked :
        (now : ℕ) (e : List ℕ) (r : Row)
        → holds id w r ≡ true
        → holds id w (dead_row now job.id v e r) ≡ true
    unfolding dead_row
    dead_row-locked now e r h = rw (not_mine r h) h

    retry_row-locked :
        (now delay : ℕ) (e : List ℕ) (r : Row)
        → holds id w r ≡ true
        → holds id w (retry_row now job.id v delay e r) ≡ true
    unfolding retry_row
    retry_row-locked now delay e r h = rw (not_mine r h) h

    Locked-letter :
        (schema : Schema) (now : ℕ) (e : List ℕ) (db : Db)
        → Locked db.jobs
        → Locked (after_letter (move_to_dead_letter schema now job v e db)).0.jobs
    unfolding move_to_dead_letter
    Locked-letter schema now e db l = elim (Bool-cases schema.dead_letters_unique_job) [
      | inl u ↦
          rw u (Locked-map (dead_row now job.id v e) db.jobs (λ r m. dead_row-locked now e r) l)
      | inr u ↦ rw u l
    ]

    Locked-settle :
        (d : Deployment) (now sample : ℕ) (failure : Option (List ℕ)) (db : Db)
        → Locked db.jobs
        → Locked (settle d now sample v job failure db).0.jobs
    unfolding settle ack retry
    Locked-settle d now sample none db l =
        Locked-map (ack_row now job.id v) db.jobs (λ r m. ack_row-locked now r) l
    Locked-settle d now sample (some e) db l =
        elim (Bool-cases (leb job.max_attempts job.attempts)) [
          | inl last ↦ rw last (Locked-letter d.schema now e db l)
          | inr more ↦
              let delay = retry_delay_seconds d.queue sample job.attempts in
              rw more (
                Locked-map (retry_row now job.id v delay e) db.jobs
                  (λ r m. retry_row-locked now delay e r) l)
        ]

  work_next-Stranded :
      (d : Deployment) (sample : ℕ) (v : String) (job : QueueJob) (rest : List QueueJob)
      (failure : Option (List ℕ)) (s : World)
      → s.held v ≡ job ∷ rest
      → Stranded s
      → Stranded (work_next d sample v job rest failure s)
  unfolding work_next
  work_next-Stranded d sample v job rest failure s top g =
      let other = g.forgotten v job (subst (Memᴰ job) (sym top) (Memᴰ.head refl)) in
      record {
        locked = Locked-settle job v other d s.now sample failure s.db g.locked;
        forgotten =
            Each-hold_rest v job rest s.held top (λ x (j : QueueJob). x ≡ w → j.id ≢ id) g.forgotten
              (settle d s.now sample v job failure s.db).1;
      }

  Step-Stranded : (d : Deployment) {s t : World} → Step d s t → Inv s → Stranded s → Stranded t
  Step-Stranded d (tick n) v g = record { locked = g.locked; forgotten = g.forgotten }
  Step-Stranded d {s} (client new_id topic payload key delay limit fresh) v g = record {
    locked = Locked-enqueue d.queue s.now new_id topic payload key delay limit s.db g.locked;
    forgotten = g.forgotten;
  }
  Step-Stranded d {s} (claims v skip n idle) inv g = claim_next-Stranded d v skip n s inv g
  Step-Stranded d {s} (works sample v job rest failure top) inv g =
      work_next-Stranded d sample v job rest failure s top g
  Step-Stranded d {s} (stops v) inv g = record {
    locked = g.locked;
    forgotten = Each-hold_none v s.held (λ x (j : QueueJob). x ≡ w → j.id ≢ id) g.forgotten;
  }

  Reach-Stranded : (d : Deployment) {s t : World} → Reach d s t → Inv s → Stranded s → Stranded t
  Reach-Stranded d here v g = g
  Reach-Stranded d (next r st) v g = Step-Stranded d st (Reach-Inv d r v) (Reach-Stranded d r v g)

-- Once the process of a worker stops, a job that it had locked stays locked by it and in the
-- status 'processing' for ever: in every state that is reached from there, by any steps of the
-- clients and of all the workers and after any time, some row is still locked for that job. The
-- lifetime of locks never frees it.
pub stopped_worker-keeps_job :
    (d : Deployment) (id : ℕ) (w : String) {s t : World}
    → Reach d start s
    → Locked id w s.db.jobs
    → Each (λ (j : QueueJob). j.id ≢ id) (s.held w)
    → Reach d s t
    → Locked id w t.db.jobs
stopped_worker-keeps_job d id w {s} r l idle more =
    let v = Reach-Inv d r start-Inv in
    (Reach-Stranded id w d more v (record {
      locked = l;
      forgotten = λ x j m p q. idle j (subst (λ y. Memᴰ j (s.held y)) p m) q;
    })).locked
