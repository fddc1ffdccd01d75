-- ===== src/Queue/Exclusion.antt =====
-- `claim_jobs` takes pending jobs that are due, and no two claims take one job.
use device_management.Queue.{pending, processing, Row, Db, QueueJob, PostgresQueue}
use device_management.Queue.Claim.{
  Runtime, claim_jobs, has_id, claim_row, chosen, claimable, order_by, to_job,
}
use device_management.Queue.Settle.{holds, owned_by}
use device_management.Queue.Rows.{UniqueIds, UniqueIds-map, has_id→Memᴰ, order_by-Memᴰ}
use device_management.Prelude.{
  ℕ, ◌+◌, String, ◌≡◌, sym, ap, ◌∙◌, subst, ◌≢◌, Bool, true, false, Option, none, some, List, map,
  Memᴰ, arith, take, select, Memᴰ-select, Memᴰ-take, Memᴰ-map, nat_eq, string_eq, pair_eq, ℤ,
  at_least,
}

claimable-pending :
    (q : PostgresQueue) (now : ℕ) (skip : ℕ → Bool) (r : Row)
    → claimable q now skip r ≡ true
    → r.status ≡ pending
unfolding claimable
claimable-pending q now skip r h = ground arith

pub holds-id : (id : ℕ) (w : String) (r : Row) → holds id w r ≡ true → r.id ≡ id
unfolding holds
holds-id id w r h = ground arith

owned_by→eq : (o : Option String) (w : String) → owned_by o w ≡ true → o ≡ some w
owned_by→eq none w h = cc
owned_by→eq (some v) w h = ap some ((string_eq.beq_iff v w).0 h)

pub holds-owner : (id : ℕ) (w : String) (r : Row) → holds id w r ≡ true → r.lock_owner ≡ some w
unfolding holds
holds-owner id w r h = owned_by→eq r.lock_owner w (ground arith)

chosen-claimable :
    (q : PostgresQueue) (now : ℕ) (skip : ℕ → Bool) (limit : ℕ) (jobs : List Row) (r : Row)
    → UniqueIds jobs
    → Memᴰ r jobs
    → has_id (chosen q now skip limit jobs) r.id ≡ true
    → claimable q now skip r ≡ true
unfolding chosen
chosen-claimable q now skip limit jobs r u mr h =
    let rows = select (claimable q now skip) jobs in
    let (s, ms, e) = has_id→Memᴰ (take limit (order_by rows)) r.id h in
    let (m, c) =
      Memᴰ-select (claimable q now skip) jobs
        (order_by-Memᴰ rows (Memᴰ-take limit (order_by rows) ms)) in
    subst (λ (x : Row). claimable q now skip x ≡ true) (u s r m mr e) c

pub chosen-pending :
    (q : PostgresQueue) (now : ℕ) (skip : ℕ → Bool) (limit : ℕ) (jobs : List Row) (r : Row)
    → UniqueIds jobs
    → Memᴰ r jobs
    → has_id (chosen q now skip limit jobs) r.id ≡ true
    → r.status ≡ pending
chosen-pending q now skip limit jobs r u mr h =
    claimable-pending q now skip r (chosen-claimable q now skip limit jobs r u mr h)

pub claim_row-id :
    (now : ℕ) (w : String) (rows : List Row) (r : Row) → (claim_row now w rows r).id ≡ r.id
unfolding claim_row
claim_row-id now w rows r = ground arith

claim_row-taken :
    (now : ℕ) (w : String) (rows : List Row) (r : Row)
    → has_id rows (claim_row now w rows r).id ≡ true
    → (has_id rows r.id ≡ true)
      × ((claim_row now w rows r).status ≡ processing)
      × ((claim_row now w rows r).attempts ≡ r.attempts + 1)
      × (holds r.id w (claim_row now w rows r) ≡ true)
unfolding claim_row holds
claim_row-taken now w rows r h = ground (arith, string_eq.beq_iff w w)

module _ (py : Runtime) (q : PostgresQueue) (now : ℕ) (w : String) (skip : ℕ → Bool) (n : ℤ)
    (db : Db) (unique : UniqueIds db.jobs) where
  -- Each job that `claim_jobs` returns is a row that was pending, due, not locked within the
  -- lock's lifetime and not locked by another transaction; afterwards that row is locked by the
  -- worker, and row and job both count one attempt more.
  pub claim_jobs-takes :
      (j : QueueJob)
      → Memᴰ j (claim_jobs py q now w skip n db).1
      → (r s : Row) × Memᴰ r db.jobs
        × (claimable q now skip r ≡ true)
        × Memᴰ s (claim_jobs py q now w skip n db).0.jobs
        × (holds j.id w s ≡ true)
        × (j.id ≡ r.id)
        × (j.attempts ≡ r.attempts + 1)
        × (s.attempts ≡ j.attempts)
  unfolding claim_jobs to_job
  claim_jobs-takes j mj =
      let rows = chosen q now skip (at_least 1 n) db.jobs in
      let jobs' = map (claim_row now w rows) db.jobs in
      let (s, ms, ej) = Memᴰ-map (to_job py q) (select (λ (r : Row). has_id rows r.id) jobs') mj in
      let (ms', has) = Memᴰ-select (λ (r : Row). has_id rows r.id) jobs' ms in
      let (r, mr, es) = Memᴰ-map (claim_row now w rows) db.jobs ms' in
      let t = claim_row-taken now w rows r (subst (λ (x : Row). has_id rows x.id ≡ true) es has) in
      let ids = ap (λ (x : Row). x.id) es ∙ claim_row-id now w rows r in
      let same = ap (λ (x : QueueJob). x.id) ej ∙ ids in
      (
        r,
        s,
        mr,
        chosen-claimable q now skip (at_least 1 n) db.jobs r unique mr t.0,
        ms',
        subst (λ (x : Row). holds j.id w x ≡ true) (sym es)
            (subst (λ (i : ℕ). holds i w (claim_row now w rows r) ≡ true) (sym same) t.3),
        same,
        ap (λ (x : QueueJob). x.attempts) ej ∙ ap (λ (x : Row). x.attempts) es ∙ t.2,
        sym (ap (λ (x : QueueJob). x.attempts) ej),
      )

  UniqueIds-claim_jobs : UniqueIds (claim_jobs py q now w skip n db).0.jobs
  unfolding claim_jobs
  UniqueIds-claim_jobs =
      let rows = chosen q now skip (at_least 1 n) db.jobs in
      UniqueIds-map (claim_row now w rows) db.jobs (claim_row-id now w rows) unique

pub held_not_claimable :
    (q : PostgresQueue) (now : ℕ) (skip : ℕ → Bool) (id : ℕ) (w : String) (r : Row)
    → holds id w r ≡ true
    → claimable q now skip r ≡ false
unfolding holds claimable
held_not_claimable q now skip id w r h = ground arith

-- Two claims in a row, by any workers at any times, return no job twice.
pub claim_jobs-disjoint :
    (py : Runtime) (q : PostgresQueue) (now now' : ℕ) (w w' : String) (skip skip' : ℕ → Bool)
    (n n' : ℤ) (db : Db)
    → UniqueIds db.jobs
    → let (db', jobs) = claim_jobs py q now w skip n db in
      (j k : QueueJob) → Memᴰ j jobs → Memᴰ k (claim_jobs py q now' w' skip' n' db').1 → j.id ≢ k.id
claim_jobs-disjoint py q now now' w w' skip skip' n n' db u j k mj mk e =
    let db' = (claim_jobs py q now w skip n db).0 in
    let u' = UniqueIds-claim_jobs py q now w skip n db u in
    let (r, s, mr, c, ms, h, ej, a, b) = claim_jobs-takes py q now w skip n db u j mj in
    let (r', s', mr', c', ms', h', ek, a', b') =
      claim_jobs-takes py q now' w' skip' n' db' u' k mk in
    let same = u' s r' ms mr' (holds-id j.id w s h ∙ e ∙ ek) in
    let free =
      held_not_claimable q now' skip' j.id w r'
        (subst (λ (x : Row). holds j.id w x ≡ true) same h) in
    cc (free, c')
