-- ===== src/Queue/Worker/Kept.antt =====
-- What `enqueue` keeps of the rows, and of the jobs that workers hold.
use device_management.Json.{Json, is_dict}
use device_management.Queue.{Row, Db, QueueJob, PostgresQueue}
use device_management.Queue.Enqueue.{enqueue, first, conflicts, touch, new_row, int_or, upsert}
use device_management.Queue.Settle.{holds}
use device_management.Queue.Rows.{
  RowOk, UniqueIds, Matches, Gives, touch-RowOk, touch-Gives, UniqueIds-map, Matches-map, Each-map,
}
use device_management.Prelude.{
  ℕ, String, ◌≡◌, refl, sym, ap, ◌∙◌, subst, ◌≢◌, ◌⊎◌, inl, inr, true, false, not, ◌||◌, Option,
  List, [], ◌∷◌, ◌++◌, map, Memᴰ, arith, Bool-cases, Option-cases, Each, Memᴰ-append_cases, ◌==◌,
  nat_eq, string_eq, pair_eq, ℤ, at_least, at_least_le,
}

pub record Tables (jobs : List Row) : Type 0 where
  pub rows : Each RowOk jobs
  pub unique : UniqueIds jobs

-- A statement that changes rows by `f` and locks none keeps the tables, and what workers hold.
module _ (f : Row → Row) (jobs : List Row) (gives : (r : Row) → Gives f r) where
  pub Tables-map :
      ((r : Row) → Memᴰ r jobs → RowOk r → RowOk (f r)) → Tables jobs → Tables (map f jobs)
  Tables-map keep t = record {
    rows = Each-map f jobs keep t.rows;
    unique = UniqueIds-map f jobs (λ r. (gives r).same_id) t.unique;
  }

  pub Matches-all-map :
      (w : String) (js : List QueueJob)
      → Each (Matches jobs w) js
      → Each (Matches (map f jobs) w) js
  Matches-all-map w js m j mj = Matches-map f jobs w j gives (m j mj)

-- ── enqueue

pub new_row-RowOk :
    (now id : ℕ) (t : String) (p : Json) (k : Option String) (z : ℤ) (n : ℕ)
    → RowOk (new_row now id t p k (at_least 1 z) n)
unfolding new_row
new_row-RowOk now id t p k z n = ground (arith, at_least_le 1 z)

new_row-not_held :
    (now id : ℕ) (t : String) (p : Json) (k : Option String) (a n id' : ℕ) (w : String)
    → holds id' w (new_row now id t p k a n) ≡ false
unfolding new_row holds
new_row-not_held now id t p k a n id' w = ground arith

new_row-id :
    (now id : ℕ) (t : String) (p : Json) (k : Option String) (a n : ℕ)
    → (new_row now id t p k a n).id ≡ id
unfolding new_row
new_row-id now id t p k a n = refl

module _ (row : Row) (jobs : List Row) (fresh : Each (λ (r : Row). r.id ≢ row.id) jobs) where
  Memᴰ_last : {r : Row} → Memᴰ r (jobs ++ row ∷ []) → Memᴰ r jobs ⊎ (r ≡ row)
  Memᴰ_last {r} m = elim (Memᴰ-append_cases jobs (row ∷ []) m) [
    | inl l ↦ inl l
    | inr l ↦ inr (only l)
  ]
    where
      only : Memᴰ r (row ∷ []) → r ≡ row
      only (Memᴰ.head p) = p
      only (Memᴰ.tail t) = elim t [ ]

  Tables-append : RowOk row → Tables jobs → Tables (jobs ++ row ∷ [])
  Tables-append h t = record {
    rows = λ r m. elim (Memᴰ_last m) [ inl l ↦ t.rows r l | inr e ↦ subst RowOk (sym e) h ];
    unique = λ r s mr ms e. elim (Memᴰ_last mr) [
      | inl lr ↦ elim (Memᴰ_last ms) [
        | inl ls ↦ t.unique r s lr ls e
        | inr es ↦ absurd (fresh r lr (e ∙ ap (λ (x : Row). x.id) es))
      ]
      | inr er ↦ elim (Memᴰ_last ms) [
        | inl ls ↦ absurd (fresh s ls (sym e ∙ ap (λ (x : Row). x.id) er))
        | inr es ↦ er ∙ sym es
      ]
    ];
  }

  Matches-append :
      (w : String) (j : QueueJob)
      → holds j.id w row ≡ false
      → Matches jobs w j
      → Matches (jobs ++ row ∷ []) w j
  Matches-append w j free m r mr h = elim (Memᴰ_last mr) [
    | inl l ↦ m r l h
    | inr e ↦ absurd (false_true (sym free ∙ ap (holds j.id w) (sym e) ∙ h))
  ]
    where
      false_true : false ≡ true → ⊥
      false_true e = cc

module _ (held : String → List QueueJob) where
  -- the invariant, of the rows alone
  pub record Good (jobs : List Row) : Type 0 where
    pub tables : Tables jobs
    pub matches : (w : String) → Each (Matches jobs w) (held w)

  Good-map :
      (f : Row → Row) (jobs : List Row)
      → ((r : Row) → Gives f r)
      → ((r : Row) → Memᴰ r jobs → RowOk r → RowOk (f r))
      → Good jobs
      → Good (map f jobs)
  Good-map f jobs gives keep g = record {
    tables = Tables-map f jobs gives keep g.tables;
    matches = λ w. Matches-all-map f jobs gives w (held w) (g.matches w);
  }

  Good-append :
      (row : Row) (jobs : List Row)
      → Each (λ (r : Row). r.id ≢ row.id) jobs
      → RowOk row
      → ((id : ℕ) (w : String) → holds id w row ≡ false)
      → Good jobs
      → Good (jobs ++ row ∷ [])
  Good-append row jobs fresh h free g = record {
    tables = Tables-append row jobs fresh h g.tables;
    matches = λ w j m. Matches-append row jobs fresh w j (free j.id w) (g.matches w j m);
  }

  upsert-Good :
      (now : ℕ) (row : Row) (db : Db)
      → Each (λ (r : Row). r.id ≢ row.id) db.jobs
      → RowOk row
      → ((id : ℕ) (w : String) → holds id w row ≡ false)
      → Good db.jobs
      → Good (upsert now row db).0.jobs
  unfolding upsert
  upsert-Good now row db fresh h free g =
      elim (Option-cases (first (conflicts row.topic row.dedupe_key) db.jobs)) [
        | inl new ↦ rw (new, upsert) (Good-append row db.jobs fresh h free g)
        | inr old ↦
            let t = row.topic in
            let k = row.dedupe_key in
            rw (old.1, upsert)
              (Good-map (touch now t k) db.jobs (touch-Gives now t k) (λ r m. touch-RowOk now t k r)
                g)
      ]

  pub enqueue-Good :
      (q : PostgresQueue) (now id : ℕ) (t : String) (p : Json) (k : Option String) (z : ℤ)
      (n : Option ℤ) (db : Db)
      → Each (λ (r : Row). r.id ≢ id) db.jobs
      → Good db.jobs
      → Good (enqueue q now id t p k z n db).0.jobs
  unfolding enqueue
  enqueue-Good q now id t p k z n db fresh g =
      let m = int_or n q.default_max_attempts in
      let row = new_row now id t p k (at_least 1 m) (at_least 0 z) in
      elim (Bool-cases (t == "" || not (is_dict p))) [
        | inl bad ↦ rw bad g
        | inr fine ↦ rw fine (
            upsert-Good now row db fresh (new_row-RowOk now id t p k m (at_least 0 z))
              (new_row-not_held now id t p k (at_least 1 m) (at_least 0 z)) g)
      ]
