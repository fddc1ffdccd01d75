-- ===== src/Llm/Pipeline.antt =====
-- app/llm/pipeline.py: the chain of interceptors before the backend, after it, and on its stream.
pub mod Order
use device_management.Llm.{Context, Response, note}
use device_management.Llm.Throttle.{Answer, Setting, State, throttle_before}
use device_management.Prelude.{
  ℕ, ◌+◌, refl, ◌⊎◌, inl, inr, true, false, Option, none, some, List, [], ◌∷◌, ◌++◌, arith,
  if◌then◌else◌, nat_eq, string_eq, pair_eq, ℤ, list_eq, Str, codes,
}

-- `W` is what the interceptors keep, `P` the type of payloads and of bodies, and `C` that of the
-- chunks of a stream. An exception of `after` is the response that it converts to.
pub record Interceptor (W P C : Type 0) : Type 0 where
  pub name : Str
  pub before : W → Context P → W × (Context P × Option Response)
  pub after : W → Context P → P → W × (Context P × (P ⊎ Response))
  pub on_chunk : Context P → C → C

-- the base class: what an interceptor does not override
unfoldable pub interceptor : {W P C : Type 0} → Str → Interceptor W P C
interceptor name = record {
  name = name;
  before = λ w ctx. (w, (ctx, none));
  after = λ w ctx body. (w, (ctx, inl body));
  on_chunk = λ ctx chunk. chunk;
}

abbrev pub denied_by : Str → Str
denied_by name = name ++ codes ":deny"

-- what follows the hook of one interceptor
abbrev pub go_on :
    {W P : Type 0}
    → Str
    → (W → Context P → W × (Context P × Option Response))
    → W × (Context P × Option Response)
    → W × (Context P × Option Response)
go_on name next (w, (ctx, some response)) = (w, (note (denied_by name) ctx, some response))
go_on name next (w, (ctx, none)) = next w ctx

unfoldable pub run_before :
    {W P C : Type 0} → List (Interceptor W P C) → W → Context P → W × (Context P × Option Response)
run_before [] w ctx = (w, (ctx, none))
run_before (x ∷ xs) w ctx = go_on x.name (λ v c. run_before xs v c) (x.before w ctx)

abbrev pub go_back :
    {W P : Type 0}
    → (W → Context P → P → W × (Context P × (P ⊎ Response)))
    → W × (Context P × (P ⊎ Response))
    → W × (Context P × (P ⊎ Response))
go_back next (w, (ctx, inr response)) = (w, (ctx, inr response))
go_back next (w, (ctx, inl body)) = next w ctx body

unfoldable pub run_after :
    {W P C : Type 0}
    → List (Interceptor W P C)
    → W
    → Context P
    → P
    → W × (Context P × (P ⊎ Response))
run_after [] w ctx body = (w, (ctx, inl body))
run_after (x ∷ xs) w ctx body = go_back (λ v c b. run_after xs v c b) (x.after w ctx body)

-- the interceptors on one chunk
unfoldable pub each_chunk : {W P C : Type 0} → List (Interceptor W P C) → Context P → C → C
each_chunk [] ctx chunk = chunk
each_chunk (x ∷ xs) ctx chunk = each_chunk xs ctx (x.on_chunk ctx chunk)

unfoldable pub wrap_stream :
    {W P C : Type 0} → List (Interceptor W P C) → Context P → List C → List C
unfolding each_chunk
wrap_stream xs ctx [] = []
wrap_stream xs ctx (chunk ∷ chunks) = each_chunk xs ctx chunk ∷ wrap_stream xs ctx chunks

-- `ThrottleInterceptor` in the chain
unfoldable pub throttle_interceptor :
    {S P C : Type 0}
    → (S → Str → ℤ → ℕ → S × Option Answer)
    → Setting
    → Setting
    → Interceptor (State S) P C
unfolding interceptor throttle_before
throttle_interceptor incr limit_setting window_setting = record (interceptor (codes "throttle")) {
  before = throttle_before incr limit_setting window_setting;
}
