-- ===== src/Queue/Worker/Claims.antt =====
-- What `claim_jobs` keeps of the rows, and of the jobs that workers hold.
use device_management.Queue.Worker.Kept.{Tables}
use device_management.Queue.Worker.Invariant.{Inv}
use device_management.Queue.Exclusion.{chosen-pending, claim_row-id, holds-id}
use device_management.Queue.{Row, QueueJob, PostgresQueue}
use device_management.Queue.Claim.{Runtime, claim_jobs, has_id, claim_row, chosen, to_job}
use device_management.Queue.Settle.{holds}
use device_management.Queue.Rows.{Matches, claim_row-RowOk, UniqueIds-map, Each-map}
use device_management.Queue.Worker.{World, Deployment, claim_next}
use device_management.Prelude.{
  ℕ, String, ◌≡◌, sym, ap, ◌∙◌, subst, inl, inr, Bool, true, false, List, map, Memᴰ, arith,
  Bool-cases, select, Memᴰ-select, Memᴰ-map, ◌==◌, nat_eq, string_eq, pair_eq, ℤ, at_least,
}

module _ (now : ℕ) (w : String) (rows jobs : List Row) where
  claim_row-other :
      (id : ℕ) (v : String) (r : Row)
      → (v == w) ≡ false
      → holds id v (claim_row now w rows r) ≡ true
      → claim_row now w rows r ≡ r
  unfolding claim_row holds
  claim_row-other id v r ne h = ground (arith, string_eq.beq_iff v w, string_eq.beq_iff w v)

  Matches-claim_other :
      (v : String) (j : QueueJob)
      → (v == w) ≡ false
      → Matches jobs v j
      → Matches (map (claim_row now w rows) jobs) v j
  Matches-claim_other v j ne m r mr h =
      let (r', mr', e) = Memᴰ-map (claim_row now w rows) jobs mr in
      let same = claim_row-other j.id v r' ne (subst (λ (x : Row). holds j.id v x ≡ true) e h) in
      let q = e ∙ same in
      let old = m r' mr' (subst (λ (x : Row). holds j.id v x ≡ true) q h) in
      (ap (λ (x : Row). x.attempts) q ∙ old.0, ap (λ (x : Row). x.max_attempts) q ∙ old.1)

to_job-Matches :
    (py : Runtime) (q : PostgresQueue) (jobs : List Row) (w : String) (r : Row)
    → Tables jobs
    → Memᴰ r jobs
    → Matches jobs w (to_job py q r)
unfolding to_job
to_job-Matches py q jobs w r t mr s ms h =
    let same = t.unique s r ms mr (holds-id r.id w s h) in
    let pos = (t.rows r mr).positive in
    (ap (λ (x : Row). x.attempts) same, ap (λ (x : Row). x.max_attempts) same ∙ ground arith)

pub claim_next-Inv :
    (d : Deployment) (w : String) (skip : ℕ → Bool) (n : ℤ) (s : World)
    → Inv s
    → Inv (claim_next d w skip n s)
unfolding claim_next claim_jobs
claim_next-Inv d w skip n s v =
    let jobs = s.db.jobs in
    let rows = chosen d.queue s.now skip (at_least 1 n) jobs in
    let jobs' = map (claim_row s.now w rows) jobs in
    let tables : Tables jobs' = record {
      rows =
          Each-map (claim_row s.now w rows) jobs
            (λ r m.
              claim_row-RowOk s.now w rows r
                (chosen-pending d.queue s.now skip (at_least 1 n) jobs r v.tables.unique m))
            v.tables.rows;
      unique =
          UniqueIds-map (claim_row s.now w rows) jobs (claim_row-id s.now w rows) v.tables.unique;
    } in
    record {
      tables = tables;
      matches = λ u. elim (Bool-cases (u == w)) [
        | inl e ↦ rw e (λ j mj.
            let (r, mr, ej) =
              Memᴰ-map (to_job d.py d.queue) (select (λ (r : Row). has_id rows r.id) jobs') mj in
            subst (Matches jobs' u) (sym ej) (
              to_job-Matches d.py d.queue jobs' u r tables
                (Memᴰ-select (λ (r : Row). has_id rows r.id) jobs' mr).0))
        | inr e ↦ rw e (λ j mj. Matches-claim_other s.now w rows jobs u j e (v.matches u j mj))
      ];
    }
