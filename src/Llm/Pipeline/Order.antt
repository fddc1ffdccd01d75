-- ===== src/Llm/Pipeline/Order.antt =====
-- The order in which the interceptors run, and where they stop.
use device_management.Llm.{Context, Response, note}
use device_management.Llm.Throttle.{Answer, Setting, State, throttle_before}
use device_management.Llm.Throttle.Refusal.{throttle_before_answers}
use device_management.Llm.Pipeline.{
  Interceptor, interceptor, denied_by, go_on, run_before, throttle_interceptor,
}
use device_management.Prelude.{
  ℕ, ◌≡◌, refl, ap, ◌∙◌, Option, none, some, List, [], ◌∷◌, ◌++◌, none-ne-some, nat_eq, string_eq,
  pair_eq, ℤ, list_eq, Str, codes,
}

-- what follows a list of interceptors
continue :
    {W P C : Type 0}
    → List (Interceptor W P C)
    → W × (Context P × Option Response)
    → W × (Context P × Option Response)
continue ys (w, (ctx, some response)) = (w, (ctx, some response))
continue ys (w, (ctx, none)) = run_before ys w ctx

run_before-append :
    {W P C : Type 0} (xs ys : List (Interceptor W P C)) (w : W) (ctx : Context P)
    → run_before (xs ++ ys) w ctx ≡ continue ys (run_before xs w ctx)
unfolding run_before continue
run_before-append [] ys w ctx = refl
run_before-append {W = W} {P = P} (z ∷ zs) ys w ctx =
    after_one (λ v c. run_before-append zs ys v c) (z.before w ctx)
  where
    after_one :
        ((v : W) (c : Context P) → run_before (zs ++ ys) v c ≡ continue ys (run_before zs v c))
        → (r : W × (Context P × Option Response))
        → go_on z.name (λ v c. run_before (zs ++ ys) v c) r
          ≡ continue ys (go_on z.name (λ v c. run_before zs v c) r)
    after_one ih (v, (c, some response)) = refl
    after_one ih (v, (c, none)) = ih v c

-- The interceptors run in their order and stop at the first that answers: where those of a list all
-- let a request through and the next one answers, the response is its answer, its refusal is noted
-- once more under its name, and what stands behind it is not run.
pub run_before-stops :
    {W P C : Type 0} (xs : List (Interceptor W P C)) (x : Interceptor W P C)
    (ys : List (Interceptor W P C)) (w v u : W) (ctx mid last : Context P) (response : Response)
    → run_before xs w ctx ≡ (v, (mid, none))
    → x.before v mid ≡ (u, (last, some response))
    → run_before (xs ++ x ∷ ys) w ctx ≡ (u, (note (denied_by x.name) last, some response))
unfolding run_before continue
run_before-stops xs x ys w v u ctx mid last response passed answers =
    run_before-append xs (x ∷ ys) w ctx
    ∙ ap (continue (x ∷ ys)) passed
    ∙ ap (go_on x.name (λ v c. run_before ys v c)) answers

go_on-answer :
    {W P : Type 0} (name : Str) (next : W → Context P → W × (Context P × Option Response))
    (r : W × (Context P × Option Response)) (response : Response)
    → r.1.1 ≡ some response
    → ((go_on name next r).1.1 ≡ some response)
      × ((go_on name next r).1.0.verdicts ≡ r.1.0.verdicts ++ denied_by name ∷ [])
go_on-answer name next (w, (ctx, some answer)) response h = (h, refl)
go_on-answer name next (w, (ctx, none)) response h = absurd (none-ne-some h)

-- A request that is over its quota leaves the chain with the interceptor's answer and with the same
-- refusal twice in its trail: the interceptor notes it, and the chain notes it again.
pub throttle_interceptor-notes_twice :
    {S P C : Type 0} (incr : S → Str → ℤ → ℕ → S × Option Answer) (ls ws : Setting)
    (ys : List (Interceptor (State S) P C)) (s : State S) (ctx : Context P) (response : Response)
    → (throttle_before incr ls ws s ctx).1.1 ≡ some response
    → let r = run_before (throttle_interceptor incr ls ws ∷ ys) s ctx in
      (r.1.1 ≡ some response)
      × (r.1.0.verdicts
          ≡ (ctx.verdicts ++ codes "throttle:deny" ∷ []) ++ codes "throttle:deny" ∷ [])
unfolding run_before throttle_interceptor interceptor
throttle_interceptor-notes_twice incr ls ws ys s ctx response h =
    let (answer, trail) =
      go_on-answer (codes "throttle") (λ v c. run_before ys v c) (throttle_before incr ls ws s ctx)
        response h in
    let (status, wait, noted, denied) = (throttle_before_answers incr ls ws s ctx).1 response h in
    (answer, trail ∙ ap (λ vs. vs ++ codes "throttle:deny" ∷ []) noted)
