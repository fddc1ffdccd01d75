-- ===== src/Suggest/RateLimit/Window.antt =====
-- What the limit on requests promises: in every window few requests have passed.
use device_management.Prelude.Dict
use device_management.Prelude.Dict.{Dict, get-put}
use device_management.Suggest.RateLimit.{Hits, recent, hits_of, rate_limit_ok, passed_times}
use device_management.Prelude.{
  ℕ, ◌≤◌, ◌<◌, ◌≡◌, refl, sym, ap, ◌∙◌, subst, ◌⊎◌, inl, inr, Bool, true, false, ◌&&◌, List, [],
  ◌∷◌, ◌++◌, arith, leb, if◌then◌else◌, lt→ltb, Bool-cases, length, select, length-append, ◌==◌,
  nat_eq, string_eq, pair_eq, pos, list_eq, list_beq_iff, Str,
}

-- the clock does not go back
abbrev pub InOrder : ℕ → List (Str × ℕ) → Type 0
InOrder now [] = Unit
InOrder now ((k, ts) ∷ calls) = (now ≤ ts) × InOrder ts calls

abbrev pub last_time : ℕ → List (Str × ℕ) → ℕ
last_time now [] = now
last_time now ((k, ts) ∷ calls) = last_time ts calls

abbrev pub counted : ℕ → ℕ → List ℕ → ℕ
counted window now times = length (select (recent window now) times)

-- what the store knows agrees with what has passed, from a time on
record Agrees (window limit now : ℕ) (hits passed : List ℕ) : Type 0 where
  same : (t : ℕ) → now ≤ t → select (recent window t) hits ≡ select (recent window t) passed
  few : (t : ℕ) → now ≤ t → counted window t passed ≤ limit

select-append {ℓ} :
    {A : Type ℓ} (p : A → Bool) (xs ys : List A) → select p (xs ++ ys) ≡ select p xs ++ select p ys
select-append p [] ys = refl
select-append p (x ∷ xs) ys = elim (Bool-cases (p x)) [
  | inl e ↦ rw e (ap (λ zs. x ∷ zs) (select-append p xs ys))
  | inr e ↦ rw e (select-append p xs ys)
]

-- what is recent later is recent now
select-recent :
    (window now t : ℕ) (xs : List ℕ)
    → now ≤ t
    → select (recent window t) (select (recent window now) xs) ≡ select (recent window t) xs
select-recent window now t [] h = refl
select-recent window now t (x ∷ xs) h = ground (arith, select-recent window now t xs h)

counted_mono :
    (window now t : ℕ) (xs : List ℕ) → now ≤ t → counted window t xs ≤ counted window now xs
counted_mono window now t [] h = omega arith
counted_mono window now t (x ∷ xs) h = ground (arith, counted_mono window now t xs h)

Agrees-later :
    {window limit now : ℕ} {hits passed : List ℕ} (ts : ℕ)
    → now ≤ ts
    → Agrees window limit now hits passed
    → Agrees window limit ts hits passed
Agrees-later ts h a = record {
  same = λ t k. a.same t (omega (arith, h, k));
  few = λ t k. a.few t (omega (arith, h, k));
}

Agrees-refused :
    {window limit now : ℕ} {hits passed : List ℕ} (ts : ℕ)
    → now ≤ ts
    → Agrees window limit now hits passed
    → Agrees window limit ts (select (recent window ts) hits) passed
Agrees-refused {window} {hits = hits} ts h a = record {
  same = λ t k. select-recent window ts t hits k ∙ a.same t (omega (arith, h, k));
  few = λ t k. a.few t (omega (arith, h, k));
}

counted-last : (window t ts : ℕ) → counted window t (ts ∷ []) ≤ 1
counted-last window t ts = ground arith

Agrees-passed :
    {window limit now : ℕ} {hits passed : List ℕ} (ts : ℕ)
    → now ≤ ts
    → leb limit (length (select (recent window ts) hits)) ≡ false
    → Agrees window limit now hits passed
    → Agrees window limit ts (select (recent window ts) hits ++ ts ∷ []) (passed ++ ts ∷ [])
Agrees-passed {window} {limit} {hits = hits} {passed = passed} ts h room a = record {
  same = λ t k.
      select-append (recent window t) (select (recent window ts) hits) (ts ∷ [])
      ∙ ap (λ xs. xs ++ select (recent window t) (ts ∷ []))
          (select-recent window ts t hits k ∙ a.same t (omega (arith, h, k)))
      ∙ sym (select-append (recent window t) passed (ts ∷ []));
  few = λ t k. omega (
    arith,
    ap length (select-append (recent window t) passed (ts ∷ [])),
    length-append {0} (select (recent window t) passed) (select (recent window t) (ts ∷ [])),
    counted-last window t ts,
    counted_mono window ts t passed k,
    ap length (a.same ts h),
    below_limit,
  );
}
  where
    below_limit : length (select (recent window ts) hits) < limit
    below_limit = ground (arith, room)

module _ (window limit : ℕ) (positive : 0 < limit) (key : Str) where
  rate_limit_ok-cases :
      (store : Hits) (k : Str) (ts : ℕ)
      → let hits = select (recent window ts) (hits_of store k) in
        let r = rate_limit_ok store k (pos limit) window ts in
        ((r ≡ (Dict.put store k hits, false)) × (leb limit (length hits) ≡ true))
        ⊎ ((r ≡ (Dict.put store k (hits ++ ts ∷ []), true)) × (leb limit (length hits) ≡ false))
  unfolding rate_limit_ok
  rate_limit_ok-cases store k ts =
      elim (Bool-cases (leb limit (length (select (recent window ts) (hits_of store k))))) [
        | inl e ↦ inl (rw (lt→ltb 0 limit positive, e), e)
        | inr e ↦ inr (rw (lt→ltb 0 limit positive, e), e)
      ]

  abbrev Goal : Hits → List ℕ → Str → ℕ → Hits × Bool → Type 0
  Goal store passed k ts r =
      Agrees window limit ts (hits_of r.0 key)
        (if r.1 && k == key then passed ++ ts ∷ [] else passed)

  Agrees-step :
      (store : Hits) (passed : List ℕ) (k : Str) (now ts : ℕ)
      → now ≤ ts
      → Agrees window limit now (hits_of store key) passed
      → let (after, ok) = rate_limit_ok store k (pos limit) window ts in
        Agrees window limit ts
          (hits_of after key)
          (if ok && k == key then passed ++ ts ∷ [] else passed)
  Agrees-step store passed k now ts h a = elim (rate_limit_ok-cases store k ts) [
    | inl (e, full) ↦ subst (Goal store passed k ts) (sym e) (refused (Bool-cases (k == key)))
    | inr (e, room) ↦ subst (Goal store passed k ts) (sym e) (let_in room (Bool-cases (k == key)))
  ]
    where
      own : (k == key) ≡ true → Agrees window limit now (hits_of store k) passed
      own e =
          subst (λ j. Agrees window limit now (hits_of store j) passed)
            (sym ((list_beq_iff k key).0 e)) a

      refused :
          ((k == key) ≡ true) ⊎ ((k == key) ≡ false)
          → Goal store passed k ts
              (Dict.put store k (select (recent window ts) (hits_of store k)), false)
      refused (inl e) =
          rw (get-put store k key (select (recent window ts) (hits_of store k)), e)
            (Agrees-refused ts h (own e))
      refused (inr e) =
          rw (get-put store k key (select (recent window ts) (hits_of store k)), e)
            (Agrees-later ts h a)

      let_in :
          leb limit (length (select (recent window ts) (hits_of store k))) ≡ false
          → ((k == key) ≡ true) ⊎ ((k == key) ≡ false)
          → Goal store passed k ts
              (Dict.put store k (select (recent window ts) (hits_of store k) ++ ts ∷ []), true)
      let_in room (inl e) =
          rw (get-put store k key (select (recent window ts) (hits_of store k) ++ ts ∷ []), e)
            (Agrees-passed ts h room (own e))
      let_in room (inr e) =
          rw (get-put store k key (select (recent window ts) (hits_of store k) ++ ts ∷ []), e)
            (Agrees-later ts h a)

  Agrees-run :
      (calls : List (Str × ℕ)) (store : Hits) (passed : List ℕ) (now : ℕ)
      → InOrder now calls
      → Agrees window limit now (hits_of store key) passed
      → let (after, times) = passed_times (pos limit) window key calls store passed in
        Agrees window limit (last_time now calls) (hits_of after key) times
  unfolding passed_times
  Agrees-run [] store passed now o a = a
  Agrees-run ((k, ts) ∷ calls) store passed now o a =
      Agrees-run calls _ _ ts o.1 (Agrees-step store passed k now ts o.0 a)

  -- Whatever keys the requests have, as long as the clock does not go back: at no time do more
  -- requests of a key than the limit lie in the window that ends there.
  pub passed_times-bounded :
      (calls : List (Str × ℕ)) (t : ℕ)
      → InOrder 0 calls
      → last_time 0 calls ≤ t
      → counted window t (passed_times (pos limit) window key calls [] []).1 ≤ limit
  unfolding Dict.get
  passed_times-bounded calls t o h =
      (Agrees-run calls [] [] 0 o (record { same = λ u k. refl; few = λ u k. omega arith })).few t h
