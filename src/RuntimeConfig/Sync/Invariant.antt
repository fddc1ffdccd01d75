-- ===== src/RuntimeConfig/Sync/Invariant.antt =====
-- A process whose generation is that of the table has the overrides of the table, where reloads do
-- not overlap.
use device_management.Prelude.Dict.{Dict}
use device_management.RuntimeConfig.Keys.{ConfigKeySpec}
use device_management.RuntimeConfig.{Lib}
use device_management.RuntimeConfig.Process.{
  Fernet, OverrideRow, Tables, Process, apply_rows, mark_applied, reload_rows, applied_is,
  sync_process, newer_generation,
}
use device_management.RuntimeConfig.Admin.{bump_generation}
use device_management.RuntimeConfig.Applied.{DistinctNames, Applied, reload_rows-Applied}
use device_management.RuntimeConfig.Sync.{
  World, Reloader, by_loop, other, Phase, idle, reading, loaded, applied, put, Step, Reach, Quiet,
  Fresh,
}
use device_management.RuntimeConfig.Sync.Order.{
  NotAhead, NotAhead-bump, Reached-self, behind, caught_up, NotAhead-newer, put_all, Alone,
  busy_other, Alone-put,
}
use device_management.Prelude.{
  ℕ, String, ◌≡◌, refl, sym, ap, ◌∙◌, subst, ◌⊎◌, inl, inr, true, false, Option, none, some, List,
  arith, Bool-cases, none-ne-some, false-ne-true, nat_eq, string_eq, pair_eq, list_eq,
}
use device_management.RuntimeConfig.Sync.Phases.{
  apply_rows-generation, reload_rows-generation, PhaseOk, PhaseOk-commit, apply_rows-Applied,
}

module _ (lib : Lib) (fernet : Option Fernet) (specs : List ConfigKeySpec) where
  record InSync (w : World) : Type 0 where
    not_ahead : NotAhead w.process.applied_generation w.tables.generation
    alone : Alone w.phases
    phases : (who : Reloader) → PhaseOk lib fernet specs w.tables w.process (w.phases who)
    in_sync :
        (g : ℕ)
        → w.tables.generation ≡ some g
        → w.process.applied_generation ≡ some g
        → Applied lib fernet specs w.tables.overrides w.process

  -- a commit leaves the process behind
  commit-InSync :
      (w : World) (rows : Dict String OverrideRow) {g : ℕ}
      → bump_generation w.tables.generation ≡ some g
      → InSync w
      → InSync (record w { tables = record { generation = some g; overrides = rows } })
  commit-InSync w rows e h = record {
    not_ahead = NotAhead-bump w.process.applied_generation w.tables.generation e h.not_ahead;
    alone = h.alone;
    phases = λ who.
        PhaseOk-commit lib fernet specs w.tables w.process rows (w.phases who) e (h.phases who);
    in_sync =
        λ g q r. absurd (behind w.process.applied_generation w.tables.generation e h.not_ahead q r);
  }

  -- a step of the only reload
  own-InSync :
      (w : World) (who : Reloader) (phase : Phase) (p : Process)
      → w.phases (other who) ≡ idle
      → NotAhead p.applied_generation w.tables.generation
      → PhaseOk lib fernet specs w.tables p phase
      → ((g : ℕ)
          → w.tables.generation ≡ some g
          → p.applied_generation ≡ some g
          → Applied lib fernet specs w.tables.overrides p)
      → InSync (record w { process = p; phases = put who phase w.phases })
  own-InSync w who phase p free before mine after = record {
    not_ahead = before;
    alone = Alone-put who phase w.phases free;
    phases =
        put_all (PhaseOk lib fernet specs w.tables p) who phase w.phases mine
          (subst (PhaseOk lib fernet specs w.tables p) (sym free) tt);
    in_sync = after;
  }

  Step-InSync :
      {w v : World} → DistinctNames specs → Step lib fernet specs false w v → InSync w → InSync v
  Step-InSync {w} d (Step.sets key row e) h = commit-InSync w _ e h
  Step-InSync {w} d (Step.resets key e) h = commit-InSync w _ e h
  Step-InSync {w} d (Step.begins who e free) h =
      own-InSync w who (reading w.tables.generation) w.process free h.not_ahead
        (h.not_ahead, Reached-self w.tables.generation) h.in_sync
  Step-InSync {w} d (Step.loads who g e) h =
      let ok = subst (PhaseOk lib fernet specs w.tables w.process) e (h.phases who) in
      own-InSync w who (loaded g w.tables.overrides) w.process
        (busy_other who w.phases h.alone (λ i. absurd (ground (arith, e, i)))) h.not_ahead
        (ok.0, ok.1, λ k q s. refl) h.in_sync
  Step-InSync {w} d (Step.applies who g rows e) h =
      let ok = subst (PhaseOk lib fernet specs w.tables w.process) e (h.phases who) in
      let p = apply_rows lib fernet specs rows w.process in
      let same = apply_rows-generation lib fernet specs rows w.process in
      let fits : (k : ℕ)
          → w.tables.generation ≡ some k
          → g ≡ some k
          → Applied lib fernet specs w.tables.overrides p =
        λ k q s.
          subst (λ o. Applied lib fernet specs o p) (ok.2 k q s)
            (apply_rows-Applied lib fernet specs rows w.process d) in
      own-InSync w who (applied g) p
        (busy_other who w.phases h.alone (λ i. absurd (ground (arith, e, i)))) (rw same h.not_ahead)
        (rw same ok.0, ok.1, fits)
        (λ k q a.
          fits k q (
            caught_up w.process.applied_generation g w.tables.generation ok.0 ok.1 q
              (sym same ∙ a)))
  Step-InSync {w} d (Step.marks who g e) h =
      let ok = subst (PhaseOk lib fernet specs w.tables w.process) e (h.phases who) in
      own-InSync w who idle (mark_applied g w.process)
        (busy_other who w.phases h.alone (λ i. absurd (ground (arith, e, i))))
        (NotAhead-newer g w.process.applied_generation w.tables.generation ok.1 h.not_ahead) tt
        (λ k q a. marked g ok k q a)
    where
      marked :
          (g : Option ℕ)
          → PhaseOk lib fernet specs w.tables w.process (applied g)
          → (k : ℕ) → w.tables.generation ≡ some k
          → newer_generation g w.process.applied_generation ≡ some k
          → Applied lib fernet specs w.tables.overrides w.process
      marked none ok k q a = absurd (none-ne-some (sym ok.1 ∙ q))
      marked (some g) ok k q a = ok.2 k q a
  Step-InSync {w} d (Step.abandons who g e) h =
      own-InSync w who idle w.process
        (busy_other who w.phases h.alone (λ i. absurd (ground (arith, e, i)))) h.not_ahead tt
        h.in_sync

  Fresh-InSync : {w : World} → Fresh w → InSync w
  Fresh-InSync {w} f = record {
    not_ahead = rw f.0 tt;
    alone = inl (f.1 by_loop);
    phases = λ who. subst (PhaseOk lib fernet specs w.tables w.process) (sym (f.1 who)) tt;
    in_sync = λ g q r. absurd (none-ne-some (sym f.0 ∙ r));
  }

  Reach-InSync :
      {w v : World} → DistinctNames specs → Fresh w → Reach lib fernet specs false w v → InSync v
  Reach-InSync d f Reach.here = Fresh-InSync f
  Reach-InSync d f (Reach.next r s) = Step-InSync d s (Reach-InSync d f r)

  -- Whatever administrators commit while a process reloads, between its two reads and before it
  -- applies what it has read too, and however far a reload is, a process that has applied the
  -- generation of the table has, for each key, the table's override or else the value at startup;
  -- where no reload begins while another runs.
  pub Reach-Applied :
      {w v : World} {g : ℕ}
      → DistinctNames specs
      → Fresh w
      → Reach lib fernet specs false w v
      → v.tables.generation ≡ some g
      → v.process.applied_generation ≡ some g
      → Applied lib fernet specs v.tables.overrides v.process
  Reach-Applied {g = g} d f r q e = (Reach-InSync d f r).in_sync g q e

  sync_process-cases :
      (t : Tables) (p : Process) {g : ℕ}
      → t.generation ≡ some g
      → ((p.applied_generation ≡ some g) × (sync_process lib fernet specs t p ≡ p))
        ⊎ (sync_process lib fernet specs t p ≡ reload_rows lib fernet specs (some g) t.overrides p)
  unfolding sync_process
  sync_process-cases t p {g = g} e = elim (Bool-cases (applied_is g p.applied_generation)) [
    | inl q ↦ inl (applied_same p.applied_generation q, rw (e, q))
    | inr q ↦ inr (rw (e, q))
  ]
    where
      applied_same : (a : Option ℕ) → applied_is g a ≡ true → a ≡ some g
      applied_same none h = absurd (false-ne-true h)
      applied_same (some a) h = ap some ((nat_eq.beq_iff a g).0 h)

  -- From every state that is reached without overlapping reloads and in which none is under way,
  -- one iteration of the loop that neither a commit nor another reload disturbs brings the process
  -- to the generation and to the overrides of the table.
  pub sync_process-converges :
      {w v : World} {g : ℕ}
      → DistinctNames specs
      → Fresh w
      → Reach lib fernet specs false w v
      → Quiet v
      → v.tables.generation ≡ some g
      → ((sync_process lib fernet specs v.tables v.process).applied_generation ≡ some g)
        × Applied lib fernet specs v.tables.overrides
            (sync_process lib fernet specs v.tables v.process)
  sync_process-converges {v = v} {g = g} d f r quiet q =
      elim (sync_process-cases v.tables v.process q) [
        | inl (a, e) ↦ rw e (a, Reach-Applied d f r q a)
        | inr e ↦ rw e (
          reload_rows-generation lib fernet specs (some g) v.tables.overrides v.process,
          reload_rows-Applied lib fernet specs (some g) v.tables.overrides v.process d,
        )
      ]
