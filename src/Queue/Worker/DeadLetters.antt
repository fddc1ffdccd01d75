-- ===== src/Queue/Worker/DeadLetters.antt =====
-- Dead letters, with the tables of db/schema.sql and with a unique index on `job_id`.
use device_management.Queue.{Row, DeadLetter, Db, QueueJob, Schema, shipped_schema, is_dead, dead}
use device_management.Queue.Enqueue.{touch, new_row}
use device_management.Queue.Claim.{claim_row}
use device_management.Queue.Settle.{
  holds, ack_row, retry_row, dead_row, move_to_dead_letter, put_letter, dead_letter,
}
use device_management.Queue.Rows.{dead_row-Gives}
use device_management.Queue.Exclusion.{holds-id}
use device_management.Queue.Worker.{World, Deployment, settle, Reach, start}
use device_management.Queue.Worker.Rowwise.{IsKept, Each-reach}
use device_management.Prelude.{
  ℕ, ◌≤◌, String, ◌≡◌, refl, sym, ap, ◌∙◌, inl, inr, true, false, Option, some, List, [], ◌∷◌, Memᴰ,
  arith, le→leb, nat_beq_iff, Bool-cases, take, Each, Memᴰ-map_intro, ◌==◌, nat_eq, string_eq,
  pair_eq,
}

abbrev NotDead : Row → Type 0
NotDead r = is_dead r.status ≡ false

touch-NotDead :
    (now : ℕ) (t : String) (k : Option String) (r : Row) → NotDead r → NotDead (touch now t k r)
unfolding touch
touch-NotDead now t k r h = ground arith

claim_row-NotDead :
    (now : ℕ) (w : String) (c : List Row) (r : Row) → NotDead r → NotDead (claim_row now w c r)
unfolding claim_row
claim_row-NotDead now w c r h = ground arith

ack_row-NotDead : (now id : ℕ) (w : String) (r : Row) → NotDead r → NotDead (ack_row now id w r)
unfolding ack_row
ack_row-NotDead now id w r h = ground arith

retry_row-NotDead :
    (now id : ℕ) (w : String) (n : ℕ) (e : List ℕ) (r : Row)
    → NotDead r
    → NotDead (retry_row now id w n e r)
unfolding retry_row
retry_row-NotDead now id w n e r h = ground arith

NotDead-kept : (d : Deployment) → d.schema.dead_letters_unique_job ≡ false → IsKept d NotDead
unfolding new_row
NotDead-kept d absent = record {
  new = λ now id t p k a n. refl;
  touched = touch-NotDead;
  claimed = claim_row-NotDead;
  acked = ack_row-NotDead;
  retried = retry_row-NotDead;
  buried = λ u now id w e r h. absurd (false_true (sym absent ∙ u));
}
  where
    false_true : false ≡ true → ⊥
    false_true e = cc

last_attempt :
    (d : Deployment) (now sample : ℕ) (w : String) (job : QueueJob) (e : List ℕ) (db : Db)
    → d.schema.dead_letters_unique_job ≡ false
    → job.max_attempts ≤ job.attempts
    → settle d now sample w job (some e) db ≡ (db, false)
unfolding settle move_to_dead_letter
last_attempt d now sample w job e db absent h = rw (le→leb _ _ h, absent)

-- With the tables of db/schema.sql no job ever becomes dead, whatever clients and workers do, and
-- the failure of a job's last attempt changes no table and ends the worker's loop.
pub shipped_schema-never_dead :
    (d : Deployment) {s : World} (now sample : ℕ) (w : String) (job : QueueJob) (e : List ℕ)
    → d.schema ≡ shipped_schema
    → Reach d start s
    → job.max_attempts ≤ job.attempts
    → Each (λ (r : Row). is_dead r.status ≡ false) s.db.jobs
      × (settle d now sample w job (some e) s.db ≡ (s.db, false))
shipped_schema-never_dead d {s} now sample w job e shipped r spent =
    let absent = ap (λ (x : Schema). x.dead_letters_unique_job) shipped in
    (
      Each-reach d NotDead (NotDead-kept d absent) r,
      last_attempt d now sample w job e s.db absent spent,
    )

put_letter-Memᴰ :
    (l : DeadLetter) (ls : List DeadLetter)
    → (m : DeadLetter) × Memᴰ m (put_letter l ls)
      × (m.job_id ≡ l.job_id)
      × (m.last_error ≡ l.last_error)
unfolding put_letter
put_letter-Memᴰ l [] = (l, Memᴰ.head refl, refl, refl)
put_letter-Memᴰ l (m ∷ ms) = elim (Bool-cases (m.job_id == l.job_id)) [
  | inl e ↦ rw e (_, Memᴰ.head refl, (nat_beq_iff m.job_id l.job_id).0 e, refl)
  | inr e ↦ let (x, mx, a, b) = put_letter-Memᴰ l ms in rw e (x, Memᴰ.tail mx, a, b)
]

dead_row-dead :
    (now id : ℕ) (w : String) (e : List ℕ) (r : Row)
    → holds id w r ≡ true
    → ((dead_row now id w e r).status ≡ dead)
      × ((dead_row now id w e r).last_error ≡ some (take 2000 e))
unfolding dead_row
dead_row-dead now id w e r h = ground arith

-- With a unique index on `job_id` the failure of the last attempt of a job that the worker has
-- locked makes its row dead, with the first 2000 characters of the error, and leaves a dead letter
-- for the job with the same text.
pub last_attempt-buries :
    (d : Deployment) (now sample : ℕ) (w : String) (job : QueueJob) (e : List ℕ) (db : Db) (r : Row)
    → d.schema.dead_letters_unique_job ≡ true
    → job.max_attempts ≤ job.attempts
    → Memᴰ r db.jobs
    → holds job.id w r ≡ true
    → let (db', goes_on) = settle d now sample w job (some e) db in
      (goes_on ≡ true)
      × (s : Row) × (l : DeadLetter) × Memᴰ s db'.jobs
      × Memᴰ l db'.dead_letters
      × (s.id ≡ job.id)
      × (s.status ≡ dead)
      × (s.last_error ≡ some (take 2000 e))
      × (l.job_id ≡ job.id)
      × (l.last_error ≡ take 2000 e)
unfolding settle move_to_dead_letter
last_attempt-buries d now sample w job e db r unique h m mine =
    let (l, ml, la, lb) = put_letter-Memᴰ (dead_letter now job e) db.dead_letters in
    let (status, text) = dead_row-dead now job.id w e r mine in
    rw (le→leb _ _ h, unique, move_to_dead_letter)
      (
        refl,
        dead_row now job.id w e r,
        l,
        Memᴰ-map_intro (dead_row now job.id w e) db.jobs m,
        ml,
        (dead_row-Gives now job.id w e r).same_id ∙ holds-id job.id w r mine,
        status,
        text,
        la,
        lb,
      )
