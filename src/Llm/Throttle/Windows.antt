-- ===== src/Llm/Throttle/Windows.antt =====
-- The counters of both stores against the requests that were made.
use native.Mathlib.Nat.{le-div_iff_mul-le, div-mul-le_self}
use device_management.Prelude.Dict
use device_management.Prelude.Dict.{Dict, get-put}
use device_management.Llm.Throttle.{
  second, within, Counters, drop_keys, window_index, bump, memory_incr,
}
use device_management.Prelude.{
  ℕ, zero, suc, ◌+◌, ◌*◌, ◌≤◌, ◌≡◌, refl, sym, ap, ◌∙◌, subst, ◌⊎◌, inl, inr, Bool, true, false,
  ◌&&◌, none, List, [], ◌∷◌, Memᴰ, arith, ltb, nat_beq, if◌then◌else◌, nat_beq_iff, Bool-cases,
  or_else, length, select, ◌==◌, nat_eq, string_eq, pair_eq, ==_refl, ℤ, list_eq, list_beq,
  list_beq_iff, pair_beq_iff, Str,
}

pub get-drop_keys :
    (p : Str × ℕ → Bool) (d : Counters) (k : Str × ℕ)
    → Dict.get (drop_keys p d) k ≡ (if p k then none else Dict.get d k)
unfolding drop_keys Dict.get
get-drop_keys p [] k = ground arith
get-drop_keys p ((j, n) ∷ d) k = elim (Bool-cases (j == k)) [
  | inl e ↦
      subst
        (λ i.
          Dict.get (drop_keys p ((j, n) ∷ d)) i ≡ (if p i then none else Dict.get ((j, n) ∷ d) i))
        ((pair_beq_iff j k).0 e) (ground (arith, get-drop_keys p d j, ==_refl j))
  | inr e ↦ ground (arith, e, get-drop_keys p d k)
]

-- A request: its subject and its time.
pub record Call : Type 0 where
  pub subject : Str
  pub now : ℕ

-- a request that falls into a window of a subject
abbrev pub counts_for : ℕ → Str → ℕ → Call → Bool
counts_for window subject index c = c.subject == subject && window_index window c.now == index

-- how many requests of a subject fall into a window
abbrev pub calls : ℕ → Str → ℕ → List Call → ℕ
calls window subject index h = length (select (counts_for window subject index) h)

abbrev pub count_of : Counters → Str → ℕ → ℕ
count_of d subject index = or_else (Dict.get d (subject, index)) 0

pub bump_own :
    (d : Counters) (k : Str × ℕ)
    → or_else (Dict.get (bump d k) k) 0 ≡ suc (or_else (Dict.get d k) 0)
bump_own d k =
    ap (λ o. or_else o 0) (get-put d k k (or_else (Dict.get d k) 0 + 1))
    ∙ rw (==_refl k) (omega arith)

window_index_mono : (window t u : ℕ) → t ≤ u → window_index window t ≤ window_index window u
window_index_mono zero t u h = omega arith
window_index_mono (suc w) t u h =
    (le-div_iff_mul-le {k = suc w * second} (omega arith)).1
      (omega (arith, div-mul-le_self t (suc w * second)))

pub counted_up :
    (d : Counters) (s t : Str) (i j : ℕ)
    → (s ≡ t → i ≤ j)
    → or_else (if t == s && ltb j i then none else Dict.get (bump d (s, i)) (t, j)) 0
      ≡ (if s == t && i == j then suc (count_of d t j) else count_of d t j)
counted_up d s t i j late = by_key (Bool-cases (list_beq s t)) (Bool-cases (nat_beq i j))
  where
    v : ℕ
    v = or_else (Dict.get d (s, i)) 0 + 1

    same :
        s ≡ t
        → i ≡ j
        → or_else (if t == s && ltb j i then none else Dict.get (bump d (s, i)) (t, j)) 0 ≡ (
            if s == t && i == j
            then suc (or_else (Dict.get d (t, j)) 0)
            else or_else (Dict.get d (t, j)) 0)
    same p q = rw (sym p, sym q) (ground (arith, get-put d (s, i) (s, i) v, list_beq_iff s s))

    by_key :
        (list_beq s t ≡ true) ⊎ (list_beq s t ≡ false)
        → (nat_beq i j ≡ true) ⊎ (nat_beq i j ≡ false)
        → or_else (if t == s && ltb j i then none else Dict.get (bump d (s, i)) (t, j)) 0 ≡ (
            if s == t && i == j
            then suc (or_else (Dict.get d (t, j)) 0)
            else or_else (Dict.get d (t, j)) 0)
    by_key (inr e) f =
        ground (arith, e, list_beq_iff s t, list_beq_iff t s, get-put d (s, i) (t, j) v)
    by_key (inl e) (inr f) =
        ground (arith, e, f, late ((list_beq_iff s t).0 e), get-put d (s, i) (t, j) v)
    by_key (inl e) (inl f) = same ((list_beq_iff s t).0 e) ((nat_beq_iff i j).0 f)

module _ (limit : ℤ) (window : ℕ) where
  -- the counters after requests, the latest first
  unfoldable pub memory_run : List Call → Counters
  unfolding memory_incr
  memory_run [] = []
  memory_run (c ∷ h) = (memory_incr (memory_run h) c.now c.subject limit window).0

  Before : ℕ → Str → List Call → Type 0
  Before index subject h =
      (c : Call) → Memᴰ c h → c.subject ≡ subject → window_index window c.now ≤ index

  step_count :
      (d : Counters) (c : Call) (subject : Str) (index : ℕ)
      → (c.subject ≡ subject → window_index window c.now ≤ index)
      → count_of (memory_incr d c.now c.subject limit window).0 subject index ≡ (
          if counts_for window subject index c
          then suc (count_of d subject index)
          else count_of d subject index)
  unfolding memory_incr
  step_count d c subject index late =
      let i = window_index window c.now in
      ap (λ o. or_else o 0)
        (get-drop_keys (λ k. k.0 == c.subject && ltb k.1 i) (bump d (c.subject, i))
          (subject, index))
      ∙ counted_up d c.subject subject i index late

  run-count :
      (h : List Call) (subject : Str) (index : ℕ)
      → Before index subject h
      → count_of (memory_run h) subject index ≡ calls window subject index h
  unfolding memory_run Dict.get Before
  run-count [] subject index b = refl
  run-count (c ∷ h) subject index b =
      step_count (memory_run h) c subject index (b c (Memᴰ.head refl))
      ∙ (rw (run-count h subject index (λ e m. b e (Memᴰ.tail m)))
          (tally (counts_for window subject index c)))
    where
      tally :
          (t : Bool)
          → (if t then suc (calls window subject index h) else calls window subject index h)
            ≡ length (
                if t
                then c ∷ select (counts_for window subject index) h
                else select (counts_for window subject index) h)
      tally true = refl
      tally false = refl

  -- Whatever requests came before, by a clock that does not go back, the store in memory counts
  -- those of the subject in the current window, this one included, and allows it exactly when that
  -- is within the limit.
  pub memory_incr_counts :
      (h : List Call) (c : Call)
      → ((e : Call) → Memᴰ e h → e.now ≤ c.now)
      → let a = (memory_incr (memory_run h) c.now c.subject limit window).1 in
        let n = suc (calls window c.subject (window_index window c.now) h) in
        (a.count ≡ n) × (a.allowed ≡ within n limit)
  unfolding memory_incr Before
  memory_incr_counts h c past =
      let i = window_index window c.now in
      let counted : or_else (Dict.get (bump (memory_run h) (c.subject, i)) (c.subject, i)) 0
          ≡ suc (calls window c.subject i h) =
        bump_own (memory_run h) (c.subject, i)
        ∙ ap suc
            (run-count h c.subject i (λ e m q. window_index_mono window e.now c.now (past e m))) in
      (counted, ap (λ n. within n limit) counted)
