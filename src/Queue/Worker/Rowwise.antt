-- ===== src/Queue/Worker/Rowwise.antt =====
-- A property that each statement keeps of each row holds of all rows in every reachable state.
use device_management.Json.{Json, is_dict}
use device_management.Queue.{Row, Db, QueueJob}
use device_management.Queue.Enqueue.{enqueue, upsert, first, conflicts, touch, new_row, int_or}
use device_management.Queue.Claim.{claim_jobs, claim_row, chosen}
use device_management.Queue.Settle.{
  ack, retry, move_to_dead_letter, ack_row, retry_row, dead_row, retry_delay_seconds,
}
use device_management.Queue.Rows.{Each-map}
use device_management.Queue.Worker.{
  World, Deployment, settle, after_letter, claim_next, work_next, Step, tick, client, claims, works,
  stops, Reach, here, next, start,
}
use device_management.Prelude.{
  ℕ, String, ◌≡◌, sym, subst, inl, inr, true, not, ◌||◌, Option, none, some, List, [], ◌∷◌, ◌++◌,
  Memᴰ, leb, Bool-cases, Option-cases, Each, Memᴰ-append_cases, ◌==◌, nat_eq, string_eq, pair_eq, ℤ,
  at_least,
}

pub record IsKept (d : Deployment) (P : Row → Type 0) : Type 0 where
  pub new :
      (now id : ℕ) (t : String) (p : Json) (k : Option String) (a n : ℕ)
      → P (new_row now id t p k a n)
  pub touched : (now : ℕ) (t : String) (k : Option String) (r : Row) → P r → P (touch now t k r)
  pub claimed : (now : ℕ) (w : String) (c : List Row) (r : Row) → P r → P (claim_row now w c r)
  pub acked : (now id : ℕ) (w : String) (r : Row) → P r → P (ack_row now id w r)
  pub retried :
      (now id : ℕ) (w : String) (n : ℕ) (e : List ℕ) (r : Row) → P r → P (retry_row now id w n e r)
  pub buried :
      d.schema.dead_letters_unique_job ≡ true
      → (now id : ℕ) (w : String) (e : List ℕ) (r : Row) → P r
      → P (dead_row now id w e r)

module _ (d : Deployment) (P : Row → Type 0) (kept : IsKept d P) where
  Each-append : (rs : List Row) (r : Row) → Each P rs → P r → Each P (rs ++ r ∷ [])
  Each-append rs r all h s m = elim (Memᴰ-append_cases rs (r ∷ []) m) [
    | inl l ↦ all s l
    | inr l ↦ only l
  ]
    where
      only : Memᴰ s (r ∷ []) → P s
      only (Memᴰ.head e) = subst P (sym e) h
      only (Memᴰ.tail t) = elim t [ ]

  Each-upsert :
      (now : ℕ) (row : Row) (db : Db) → P row → Each P db.jobs → Each P (upsert now row db).0.jobs
  unfolding upsert
  Each-upsert now row db h all =
      elim (Option-cases (first (conflicts row.topic row.dedupe_key) db.jobs)) [
        | inl new ↦ rw (new, upsert) (Each-append db.jobs row all h)
        | inr old ↦
            rw (old.1, upsert)
              (Each-map (touch now row.topic row.dedupe_key) db.jobs
                (λ r m. kept.touched now row.topic row.dedupe_key r) all)
      ]

  Each-enqueue :
      (now id : ℕ) (t : String) (p : Json) (k : Option String) (z : ℤ) (n : Option ℤ) (db : Db)
      → Each P db.jobs
      → Each P (enqueue d.queue now id t p k z n db).0.jobs
  unfolding enqueue
  Each-enqueue now id t p k z n db all =
      let a = at_least 1 (int_or n d.queue.default_max_attempts) in
      elim (Bool-cases (t == "" || not (is_dict p))) [
        | inl bad ↦ rw bad all
        | inr fine ↦ rw fine (
            Each-upsert now (new_row now id t p k a (at_least 0 z)) db
              (kept.new now id t p k a (at_least 0 z)) all)
      ]

  Each-letter :
      (now : ℕ) (job : QueueJob) (w : String) (e : List ℕ) (db : Db)
      → Each P db.jobs
      → Each P (after_letter (move_to_dead_letter d.schema now job w e db)).0.jobs
  unfolding move_to_dead_letter
  Each-letter now job w e db all = elim (Bool-cases d.schema.dead_letters_unique_job) [
    | inl u ↦
        rw u
          (Each-map (dead_row now job.id w e) db.jobs (λ r m. kept.buried u now job.id w e r) all)
    | inr u ↦ rw u all
  ]

  Each-settle :
      (now sample : ℕ) (w : String) (job : QueueJob) (failure : Option (List ℕ)) (db : Db)
      → Each P db.jobs
      → Each P (settle d now sample w job failure db).0.jobs
  unfolding settle ack retry
  Each-settle now sample w job none db all =
      Each-map (ack_row now job.id w) db.jobs (λ r m. kept.acked now job.id w r) all
  Each-settle now sample w job (some e) db all =
      elim (Bool-cases (leb job.max_attempts job.attempts)) [
        | inl last ↦ rw last (Each-letter now job w e db all)
        | inr more ↦
            let delay = retry_delay_seconds d.queue sample job.attempts in
            rw more (
              Each-map (retry_row now job.id w delay e) db.jobs
                (λ r m. kept.retried now job.id w delay e r) all)
      ]

  Each-step : {s t : World} → Step d s t → Each P s.db.jobs → Each P t.db.jobs
  unfolding claim_next claim_jobs work_next
  Each-step (tick n) all = all
  Each-step {s} (client id topic payload key delay limit fresh) all =
      Each-enqueue s.now id topic payload key delay limit s.db all
  Each-step {s} (claims w skip n idle) all =
      let rows = chosen d.queue s.now skip (at_least 1 n) s.db.jobs in
      Each-map (claim_row s.now w rows) s.db.jobs (λ r m. kept.claimed s.now w rows r) all
  Each-step {s} (works sample w job rest failure top) all =
      Each-settle s.now sample w job failure s.db all
  Each-step (stops w) all = all

  pub Each-reach : {s : World} → Reach d start s → Each P s.db.jobs
  Each-reach here = λ r m. elim m [ ]
  Each-reach (next r st) = Each-step st (Each-reach r)
