-- ===== src/Llm/Throttle/Database.antt =====
-- The counters in PostgreSQL, and the purge of old windows.
use native.Mathlib.Nat.{mul_assoc, mul-div_cancel, lt-div-mul-add}
use device_management.Prelude.Dict
use device_management.Prelude.Dict.{Dict, get-put}
use device_management.Llm.Throttle.{
  second, within, Counters, drop_keys, window_index, bump, PostgresState, purge_interval,
  window_start, maybe_purge, postgres_incr,
}
use device_management.Llm.Throttle.Windows.{
  Call, counts_for, calls, count_of, get-drop_keys, bump_own,
}
use device_management.Prelude.{
  ℕ, suc, ◌+◌, ◌*◌, ◌/◌, ◌≤◌, ◌<◌, ◌≡◌, refl, sym, ap, ◌∙◌, ◌⊎◌, inl, inr, Bool, true, false, ◌&&◌,
  List, [], ◌∷◌, map, Memᴰ, arith, ltb, nat_beq, if◌then◌else◌, nat_beq_iff, Bool-cases, or_else,
  length, select, ◌==◌, nat_eq, string_eq, pair_eq, ℤ, list_eq, list_beq, list_beq_iff, Str,
}

-- A request, the clock of the process at it, and whether a purge then works.
pub record Request : Type 0 where
  pub call : Call
  pub monotonic : ℕ
  pub delete_works : Bool

bumped :
    (d : Counters) (s t : Str) (i j : ℕ)
    → count_of (bump d (s, i)) t j
      ≡ (if s == t && i == j then suc (count_of d t j) else count_of d t j)
bumped d s t i j = by_key (Bool-cases (list_beq s t)) (Bool-cases (nat_beq i j))
  where
    v : ℕ
    v = or_else (Dict.get d (s, i)) 0 + 1

    Goal : Type 0
    Goal =
        count_of (bump d (s, i)) t j
        ≡ (if s == t && i == j then suc (count_of d t j) else count_of d t j)

    same : s ≡ t → i ≡ j → Goal
    same p q = rw (sym p, sym q) (ground (arith, get-put d (s, i) (s, i) v, list_beq_iff s s))

    by_key :
        (list_beq s t ≡ true) ⊎ (list_beq s t ≡ false)
        → (nat_beq i j ≡ true) ⊎ (nat_beq i j ≡ false)
        → Goal
    by_key (inr e) f = ground (arith, e, get-put d (s, i) (t, j) v)
    by_key (inl e) (inr f) = ground (arith, e, f, get-put d (s, i) (t, j) v)
    by_key (inl e) (inl f) = same ((list_beq_iff s t).0 e) ((nat_beq_iff i j).0 f)

-- a window that has begun at most an hour ago is not purged
maybe_purge-keeps :
    (monotonic now : ℕ) (works : Bool) (s : PostgresState) (t : Str) (j : ℕ)
    → now ≤ j * second + 3600 * second
    → count_of (maybe_purge monotonic now works s).counters t j ≡ count_of s.counters t j
unfolding maybe_purge
maybe_purge-keeps monotonic now works s t j h =
    let old : Str × ℕ → Bool = λ k. ltb (k.1 * second + 3600 * second) now in
    let kept : ltb (j * second + 3600 * second) now ≡ false = ground (arith, h) in
    purged (ltb monotonic (s.last_purge + purge_interval)) works
      (ap (λ o. or_else o 0) (get-drop_keys old s.counters (t, j)) ∙ rw kept)
  where
    purged :
        (early works : Bool)
        → count_of (drop_keys (λ k. ltb (k.1 * second + 3600 * second) now) s.counters) t j
          ≡ count_of s.counters t j
        → count_of
            (if early then s else record {
              counters =
                  if works
                  then drop_keys (λ k. ltb (k.1 * second + 3600 * second) now) s.counters
                  else s.counters;
              last_purge = monotonic;
            }).counters
            t
            j
          ≡ count_of s.counters t j
    purged true w e = refl
    purged false true e = e
    purged false false e = refl

module _ (limit : ℤ) (window : ℕ) where
  -- the state after requests, the latest first
  unfoldable pub postgres_run : List Request → PostgresState
  unfolding postgres_incr
  postgres_run [] = record { counters = []; last_purge = 0 }
  postgres_run (r ∷ h) =
      (postgres_incr (postgres_run h) r.monotonic r.call.now r.delete_works r.call.subject limit
        window).0

  starts_at : Str → ℕ → Request → Bool
  starts_at subject start r = r.call.subject == subject && window_start window r.call.now == start

  run-count :
      (h : List Request) (subject : Str) (start : ℕ)
      → ((r : Request) → Memᴰ r h → r.call.now ≤ start * second + 3600 * second)
      → count_of (postgres_run h).counters subject start
        ≡ length (select (starts_at subject start) h)
  unfolding postgres_run starts_at Dict.get
  run-count [] subject start b = refl
  run-count (r ∷ h) subject start b =
      maybe_purge-keeps r.monotonic r.call.now r.delete_works _ subject start (b r (Memᴰ.head refl))
      ∙ bumped (postgres_run h).counters r.call.subject subject (window_start window r.call.now)
          start
      ∙ rw (run-count h subject start (λ q m. b q (Memᴰ.tail m)))
          (tally (starts_at subject start r))
    where
      tally :
          (t : Bool)
          → (if t
              then suc (length (select (starts_at subject start) h))
              else length (select (starts_at subject start) h))
            ≡ length (
                if t
                then r ∷ select (starts_at subject start) h
                else select (starts_at subject start) h)
      tally true = refl
      tally false = refl

scaled : (w i j : ℕ) → 0 < w → nat_beq (i * w) (j * w) ≡ nat_beq i j
scaled w i j h = elim (Bool-cases (nat_beq i j)) [
  | inl e ↦ rw (e, (nat_beq_iff (i * w) (j * w)).1 (ap (λ n. n * w) ((nat_beq_iff i j).0 e)))
  | inr e ↦ apart e (Bool-cases (nat_beq (i * w) (j * w)))
]
  where
    apart :
        nat_beq i j ≡ false
        → (nat_beq (i * w) (j * w) ≡ true) ⊎ (nat_beq (i * w) (j * w) ≡ false)
        → nat_beq (i * w) (j * w) ≡ nat_beq i j
    apart e (inr f) = f ∙ sym e
    apart e (inl f) =
        let q = (nat_beq_iff (i * w) (j * w)).0 f in
        f
        ∙ sym (
            (nat_beq_iff i j).1 (sym (mul-div_cancel i h) ∙ ap (λ n. n / w) q ∙ mul-div_cancel j h))

starts-calls :
    (limit : ℤ) (window : ℕ) (h : List Request) (subject : Str) (now : ℕ)
    → 0 < window
    → length (select (starts_at limit window subject (window_start window now)) h)
      ≡ calls window subject (window_index window now) (map (λ (r : Request). r.call) h)
unfolding starts_at
starts-calls limit window [] subject now w = refl
starts-calls limit window (r ∷ h) subject now w =
    let i = window_index window r.call.now in
    let j = window_index window now in
    step (r.call.subject == subject) (nat_beq (i * window) (j * window)) (nat_beq i j)
      (scaled window i j w) (select (starts_at limit window subject (window_start window now)) h)
      (select (counts_for window subject j) (map (λ (x : Request). x.call) h))
      (starts-calls limit window h subject now w)
  where
    step :
        (s a b : Bool)
        → a ≡ b
        → (xs : List Request) (ys : List Call) → length xs ≡ length ys
        → length (if s && a then r ∷ xs else xs) ≡ length (if s && b then r.call ∷ ys else ys)
    step s a b e xs ys q = ground (arith, e, q)

within_hour :
    (window now : ℕ)
    → 0 < window
    → window ≤ 3600
    → now ≤ window_start window now * second + 3600 * second
within_hour window now w h =
    let b = window * second in
    let i = now / b in
    let inside : now < i * b + b = lt-div-mul-add (omega (arith, w)) in
    omega (arith, inside, mul_assoc i window second, h)

-- Whatever requests came before, by a database clock that does not go back, and whatever purges,
-- PostgreSQL counts those of the subject in the current window, this one included, and allows it
-- exactly when that is within the limit: as the store in memory does. The window is of at most an
-- hour.
pub postgres_incr_counts :
    (limit : ℤ) (window : ℕ) (h : List Request) (r : Request)
    → 0 < window
    → window ≤ 3600
    → ((e : Request) → Memᴰ e h → e.call.now ≤ r.call.now)
    → let s = postgres_run limit window h in
      let a =
        (postgres_incr s r.monotonic r.call.now r.delete_works r.call.subject limit window).1 in
      let n = suc (
        calls window r.call.subject
          (window_index window r.call.now)
          (map (λ (e : Request). e.call) h)) in
      (a.count ≡ n) × (a.allowed ≡ within n limit)
unfolding postgres_incr
postgres_incr_counts limit window h r w hour past =
    let start = window_start window r.call.now in
    let counted : count_of (bump (postgres_run limit window h).counters (r.call.subject, start))
          r.call.subject start
        ≡ suc (
            calls window r.call.subject (window_index window r.call.now)
              (map (λ (e : Request). e.call) h)) =
      bump_own (postgres_run limit window h).counters (r.call.subject, start)
      ∙ ap suc (
          run-count limit window h r.call.subject start
            (λ e m. omega (arith, past e m, within_hour window r.call.now w hour)))
      ∙ ap suc (starts-calls limit window h r.call.subject r.call.now w) in
    (counted, ap (λ n. within n limit) counted)

-- A longer window is cut short: a request that comes more than an hour into its window, when a
-- purge is due and works, leaves no trace of itself or of any earlier one of the window.
pub postgres_incr-forgets :
    (limit : ℤ) (window : ℕ) (s : PostgresState) (monotonic now : ℕ) (subject : Str)
    → s.last_purge + purge_interval ≤ monotonic
    → window_start window now * second + 3600 * second < now
    → count_of
        (postgres_incr s monotonic now true subject limit window).0.counters
        subject
        (window_start window now)
      ≡ 0
unfolding postgres_incr maybe_purge
postgres_incr-forgets limit window s monotonic now subject due old =
    let start = window_start window now in
    let expired : Str × ℕ → Bool = λ k. ltb (k.1 * second + 3600 * second) now in
    let late : ltb monotonic (s.last_purge + purge_interval) ≡ false = ground (arith, due) in
    let gone : ltb (start * second + 3600 * second) now ≡ true = ground (arith, old) in
    rw (late) (
      ap (λ o. or_else o 0)
        (get-drop_keys expired (bump s.counters (subject, start)) (subject, start))
      ∙ rw gone)
