-- ===== src/Queue/Worker/Settles.antt =====
-- What the end of a job keeps of the rows, and of the jobs that workers hold.
use device_management.Queue.Worker.Kept.{Tables, Tables-map}
use device_management.Queue.{Row, Db, QueueJob, Schema}
use device_management.Queue.Settle.{
  ack, retry, move_to_dead_letter, ack_row, retry_row, dead_row, retry_delay_seconds,
}
use device_management.Queue.Rows.{
  RowOk, Matches, Gives, ack_row-RowOk, dead_row-RowOk, retry_row-RowOk, ack_row-Gives,
  dead_row-Gives, retry_row-Gives, Matches-map,
}
use device_management.Queue.Worker.{Deployment, settle, after_letter, hold}
use device_management.Prelude.{
  ℕ, String, ◌≡◌, sym, ap, ◌∙◌, subst, inl, inr, Bool, true, false, Option, none, some, List, [],
  ◌∷◌, map, Memᴰ, arith, leb, if◌then◌else◌, Bool-cases, Each, ◌==◌, nat_eq, string_eq, pair_eq,
}

-- What `settle` keeps, of the rows and of every job that some worker holds.
pub record Settles (jobs jobs' : List Row) : Type 0 where
  pub tables : Tables jobs'
  pub matches : (v : String) (j : QueueJob) → Matches jobs v j → Matches jobs' v j

Settles-map :
    (f : Row → Row) (jobs : List Row)
    → ((r : Row) → Gives f r)
    → ((r : Row) → Memᴰ r jobs → RowOk r → RowOk (f r))
    → Tables jobs
    → Settles jobs (map f jobs)
Settles-map f jobs gives keep t = record {
  tables = Tables-map f jobs gives keep t;
  matches = λ v j. Matches-map f jobs v j gives;
}

letter-Settles :
    (schema : Schema) (now : ℕ) (job : QueueJob) (w : String) (e : List ℕ) (db : Db)
    → Tables db.jobs
    → Settles db.jobs (after_letter (move_to_dead_letter schema now job w e db)).0.jobs
unfolding move_to_dead_letter
letter-Settles schema now job w e db t = elim (Bool-cases schema.dead_letters_unique_job) [
  | inl u ↦ rw u (
      Settles-map (dead_row now job.id w e) db.jobs (dead_row-Gives now job.id w e)
        (λ r m. dead_row-RowOk now job.id w e r) t)
  | inr u ↦ rw u (record { tables = t; matches = λ v j m. m })
]

pub settle-Settles :
    (d : Deployment) (now sample : ℕ) (w : String) (job : QueueJob) (failure : Option (List ℕ))
    (db : Db)
    → Tables db.jobs
    → Matches db.jobs w job
    → Settles db.jobs (settle d now sample w job failure db).0.jobs
unfolding settle ack retry
settle-Settles d now sample w job none db t m =
    Settles-map (ack_row now job.id w) db.jobs (ack_row-Gives now job.id w)
      (λ r mr. ack_row-RowOk now job.id w r) t
settle-Settles d now sample w job (some e) db t m =
    elim (Bool-cases (leb job.max_attempts job.attempts)) [
      | inl last ↦ rw last (letter-Settles d.schema now job w e db t)
      | inr more ↦
          let delay = retry_delay_seconds d.queue sample job.attempts in
          rw more (
            Settles-map (retry_row now job.id w delay e) db.jobs
              (retry_row-Gives now job.id w delay e)
              (λ r mr.
                retry_row-RowOk now job.id w delay e r (λ h. let fits = m r mr h in ground arith))
              t)
    ]

module _ (w : String) (job : QueueJob) (rest : List QueueJob) (held : String → List QueueJob)
    (top : held w ≡ job ∷ rest) (P : String → QueueJob → Type 0)
    (all : (v : String) → Each (P v) (held v)) where
  pub Each-hold_rest : (b : Bool) (v : String) → Each (P v) (hold w (if b then rest else []) held v)
  Each-hold_rest b v = elim (Bool-cases (v == w)) [ inr e ↦ rw e (all v) | inl e ↦ rw e (kept b e) ]
    where
      tail_all : v ≡ w → (j : QueueJob) → Memᴰ j rest → P v j
      tail_all p j m = all v j (subst (Memᴰ j) (sym (ap held p ∙ top)) (Memᴰ.tail m))

      kept : (b : Bool) → (v == w) ≡ true → Each (P v) (if b then rest else [])
      kept true e j m = tail_all ((string_eq.beq_iff v w).0 e) j m
      kept false e j m = elim m [ ]
