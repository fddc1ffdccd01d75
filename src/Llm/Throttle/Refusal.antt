-- ===== src/Llm/Throttle/Refusal.antt =====
-- When the interceptor refuses a request, and what it says then.
use mathlib.Core.Option
use native.Mathlib.Nat.{add-mul, le-div_iff_mul-le, div-mul-le_self, lt-div-mul-add}
use device_management.Llm.{Context, Response, openai_error}
use device_management.Llm.Throttle.{
  second, Answer, ceil_seconds, window_index, retry_after, Setting, quota_limit,
  quota_window_seconds, positive, State, judge, throttle, throttle_before,
}
use device_management.Prelude.{
  ℕ, ◌+◌, ◌-◌, ◌*◌, ◌/◌, ◌≤◌, ◌<◌, ◌≡◌, refl, sym, ◌≢◌, ◌⊎◌, ◌↔◌, inl, inr, Bool, true, false,
  Option, Option-cases, none, some, [], ◌∷◌, ◌++◌, arith, Bool-cases, none-ne-some, false-ne-true,
  nat_eq, string_eq, pair_eq, ℤ, list_eq, Str, codes, first_text,
}

ceil_seconds_bounds : (t : ℕ) → t ≤ ceil_seconds t * second
ceil_seconds_bounds t = omega arith

ceil_seconds_le : (t w : ℕ) → t ≤ w * second → ceil_seconds t ≤ w
ceil_seconds_le t w h = omega (arith, h)

-- The wait that a response names is at least a second and at most a window, and who waits that
-- long comes into a later window.
pub retry_after_suffices :
    (window now : ℕ)
    → 0 < window
    → (1 ≤ retry_after window now)
      × (retry_after window now ≤ window)
      × (window_index window now < window_index window (now + retry_after window now * second))
retry_after_suffices window now w =
    let b = window * second in
    let i = now / b in
    let left = (i + 1) * b - now in
    let begun : i * b ≤ now = div-mul-le_self now b in
    let whole : left ≤ window * second =
      omega (arith, add-mul i 1 b, lt-div-mul-add {a = now} {b = b} (omega (arith, w))) in
    let short : ceil_seconds left ≤ window = ceil_seconds_le left window whole in
    let enough : left ≤ ceil_seconds left * second = ceil_seconds_bounds left in
    (
      omega arith,
      omega (arith, short, w),
      (le-div_iff_mul-le {k = b} (omega (arith, w))).1 (omega (arith, enough, add-mul i 1 b)),
    )

abbrev pub nonempty : Str → Bool
nonempty [] = false
nonempty (c ∷ s) = true

judge_lem :
    {S P : Type 0} (limit : ℤ) (window : ℕ) (s : State S) (ctx : Context P)
    (counted : S × Option Answer)
    → let r = judge limit window s ctx counted in
      ((r.1.1 ≢ none) ↔ ((a : Answer) × (counted.1 ≡ some a) × (a.allowed ≡ false)))
      × ((response : Response)
          → r.1.1 ≡ some response
          → (response.status_code ≡ 429)
            × (response.retry_after ≡ Option.map (λ (a : Answer). a.retry_after) counted.1)
            × (r.1.0.verdicts ≡ ctx.verdicts ++ codes "throttle:deny" ∷ [])
            × (r.0.denied ≡ s.denied + 1))
unfolding judge openai_error
judge_lem limit window s ctx (store, none) =
    ((λ q. absurd (q refl), λ (x, e, f). absurd (none-ne-some e)), λ r e. absurd (none-ne-some e))
judge_lem limit window s ctx (store, some a) = elim (Bool-cases a.allowed) [
  | inl e ↦ rw e (
    (λ q. absurd (q refl), λ (x, q, f) n. absurd (ground (arith, e, q, f))),
    λ r q. absurd (none-ne-some q),
  )
  | inr e ↦ rw e (
    (λ q. (record a { allowed = false }, refl, refl), λ x n. absurd (none-ne-some (sym n))),
    λ r q. ground (arith, q),
  )
]

throttle_lem :
    {S P : Type 0} (incr : S → Str → ℤ → ℕ → S × Option Answer) (limit : ℤ) (window : ℕ)
    (subject : Str) (s : State S) (ctx : Context P)
    → let counted = (incr s.store subject limit window).1 in
      let r = throttle incr limit window subject s ctx in
      ((r.1.1 ≢ none) ↔ (
        (positive limit ≡ true)
        × ((nonempty subject ≡ true) × ((a : Answer) × (counted ≡ some a) × (a.allowed ≡ false)))))
      × ((response : Response)
          → r.1.1 ≡ some response
          → (response.status_code ≡ 429)
            × (response.retry_after ≡ Option.map (λ (a : Answer). a.retry_after) counted)
            × (r.1.0.verdicts ≡ ctx.verdicts ++ codes "throttle:deny" ∷ [])
            × (r.0.denied ≡ s.denied + 1))
unfolding throttle
throttle_lem incr limit window [] s ctx = (
  (λ q. absurd (q refl), λ (p, (n, x)). absurd (false-ne-true n)),
  λ r q. absurd (none-ne-some q),
)
throttle_lem incr limit window (c ∷ cs) s ctx = elim (Bool-cases (positive limit)) [
  | inr e ↦
      rw e
        ((λ q. absurd (q refl), λ (p, x). absurd (false-ne-true p)), λ r q. absurd (none-ne-some q))
  | inl e ↦
      let (both, reply) = judge_lem limit window s ctx (incr s.store (c ∷ cs) limit window) in
      rw e ((λ q. (refl, (refl, both.0 q)), λ (p, (n, x)). both.1 x), reply)
]

pub throttle_before_answers :
    {S P : Type 0} (incr : S → Str → ℤ → ℕ → S × Option Answer) (ls ws : Setting) (s : State S)
    (ctx : Context P)
    → let subject = first_text ctx.identity.client_uuid ctx.identity.email in
      let counted = (incr s.store subject (quota_limit ls) (quota_window_seconds ws)).1 in
      let r = throttle_before incr ls ws s ctx in
      ((r.1.1 ≢ none) ↔ (
        (positive (quota_limit ls) ≡ true)
        × ((nonempty subject ≡ true) × ((a : Answer) × (counted ≡ some a) × (a.allowed ≡ false)))))
      × ((response : Response)
          → r.1.1 ≡ some response
          → (response.status_code ≡ 429)
            × (response.retry_after ≡ Option.map (λ (a : Answer). a.retry_after) counted)
            × (r.1.0.verdicts ≡ ctx.verdicts ++ codes "throttle:deny" ∷ [])
            × (r.0.denied ≡ s.denied + 1))
unfolding throttle_before
throttle_before_answers incr ls ws s ctx =
    throttle_lem incr (quota_limit ls) (quota_window_seconds ws)
      (first_text ctx.identity.client_uuid ctx.identity.email) s ctx

-- the answer of the interceptor when it refuses
abbrev pub Refused :
    {S P : Type 0}
    → State S
    → Context P
    → Option Answer
    → State S × (Context P × Option Response)
    → Type 0
Refused s ctx counted r =
    (response : Response) × ((r.1.1 ≡ some response)
      × ((response.status_code ≡ 429)
          × (response.retry_after ≡ Option.map (λ (a : Answer). a.retry_after) counted)
          × (r.1.0.verdicts ≡ ctx.verdicts ++ codes "throttle:deny" ∷ [])
          × (r.0.denied ≡ s.denied + 1)))

-- The interceptor answers a request itself exactly when a positive limit is set, the request has a
-- client or an address, the store counts it and it is over the limit. The answer is then a 429 that
-- names the store's wait, and the refusal is noted once in the trail and in the metric.
pub throttle_before_outcome :
    {S P : Type 0} (incr : S → Str → ℤ → ℕ → S × Option Answer) (ls ws : Setting) (s : State S)
    (ctx : Context P)
    → let subject = first_text ctx.identity.client_uuid ctx.identity.email in
      let counted = (incr s.store subject (quota_limit ls) (quota_window_seconds ws)).1 in
      let r = throttle_before incr ls ws s ctx in
      ((r.1.1 ≢ none) ↔ (
        (positive (quota_limit ls) ≡ true)
        × ((nonempty subject ≡ true) × ((a : Answer) × (counted ≡ some a) × (a.allowed ≡ false)))))
      × ((r.1.1 ≡ none) ⊎ Refused s ctx counted r)
throttle_before_outcome incr ls ws s ctx =
    let (when, reply) = throttle_before_answers incr ls ws s ctx in
    (
      when,
      elim (Option-cases (throttle_before incr ls ws s ctx).1.1) [
        | inl e ↦ inl e
        | inr (response, e) ↦ inr (response, (e, reply response e))
      ],
    )
