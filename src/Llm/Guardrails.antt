-- ===== src/Llm/Guardrails.antt =====
-- app/llm/guardrails.py: the rules on prompts and answers, which the configuration names, and the
-- interceptor that applies them. The parse of a JSON list is a parameter.
pub mod Switch
use device_management.Prelude.Text.{split_on}
use device_management.Llm.{Context, Response, openai_error, note}
use device_management.Llm.Pipeline.{Interceptor, interceptor}
use device_management.Prelude.{
  ◌+◌, refl, ◌⊎◌, inl, inr, Bool, true, false, not, Option, none, some, List, [], ◌∷◌, ◌++◌, map,
  arith, if◌then◌else◌, select, ◌==◌, nat_eq, string_eq, pair_eq, list_eq, Str, codes, strip,
  first_text,
}

pub data Direction : Type 0 where
  request response : Direction

-- A transformation without a payload does nothing.
pub data Result (P : Type 0) : Type 0 where
  allow : Result P
  deny : Str → Result P
  transform : Option P → Result P

pub record Guardrail (P : Type 0) : Type 0 where
  pub name : Str
  pub check : P → Direction → Context P → Result P

abbrev pub noop_guardrail : {P : Type 0} → Guardrail P
noop_guardrail = record { name = codes "noop"; check = λ payload direction ctx. allow }

abbrev pub deny_all_guardrail : {P : Type 0} → Guardrail P
deny_all_guardrail = record {
  name = codes "deny_all";
  check = λ payload direction ctx. deny (codes "blocked by policy (deny_all)");
}

-- `GUARDRAIL_REGISTRY.get(name)`
unfoldable pub registered : {P : Type 0} → Str → Option (Guardrail P)
registered name =
    if name == codes "noop"
    then some noop_guardrail
    else if name == codes "deny_all"
    then some deny_all_guardrail
    else none

abbrev pub nonempty : Str → Bool
nonempty [] = false
nonempty (c ∷ s) = true

abbrev pub stripped : List Str → List Str
stripped ts = select nonempty (map strip ts)

abbrev pub starts_with_bracket : Str → Bool
starts_with_bracket [] = false
starts_with_bracket (c ∷ s) = c == b'['

-- `loads` gives the texts of the items of a JSON list; `none` is an exception.
unfoldable pub configured_names : (Str → Option (List Str)) → Str → List Str
configured_names loads setting =
    let raw = strip setting in
    if not (nonempty raw)
    then codes "noop" ∷ []
    else if starts_with_bracket raw
    then (elim (loads raw) [ none ↦ codes "noop" ∷ [] | some items ↦ stripped items ])
    else stripped (split_on b',' raw)

abbrev pub with_rule : {P : Type 0} → Option (Guardrail P) → List (Guardrail P) → List (Guardrail P)
with_rule none gs = gs
with_rule (some g) gs = g ∷ gs

-- the rules of the names, without those that nobody registered
unfoldable pub guardrails_of : {P : Type 0} → List Str → List (Guardrail P)
unfolding registered
guardrails_of [] = []
guardrails_of (name ∷ names) = with_rule (registered name) (guardrails_of names)

unfoldable pub build_guardrails :
    {P : Type 0} → (Str → Option (List Str)) → Str → List (Guardrail P)
unfolding guardrails_of configured_names
build_guardrails loads setting = guardrails_of (configured_names loads setting)

abbrev pub blocked : Str → Str → Response
blocked reason default =
    openai_error 403 (first_text reason default) (codes "invalid_request_error")
      (some (codes "content_policy_violation")) none

abbrev pub trail : Str → Str → Str
trail name what = codes "guardrail:" ++ name ++ b':' ∷ what

-- what a request comes to after one rule; `next` is the rest of the loop
abbrev pub request_checked :
    {P : Type 0}
    → Guardrail P
    → (P → Context P → Context P × Option Response)
    → P
    → Context P
    → Result P
    → Context P × Option Response
request_checked g next payload ctx (deny reason) = (
  note (trail g.name (codes "deny")) ctx,
  some (blocked reason (codes "Request blocked by guardrail.")),
)
request_checked g next payload ctx (transform (some changed)) =
    next changed (note (trail g.name (codes "transform")) ctx)
request_checked g next payload ctx (transform none) = next payload ctx
request_checked g next payload ctx allow = next payload ctx

-- the loop of `before`, with the payload so far, which the context keeps only at the end
unfoldable pub check_request :
    {P : Type 0} → List (Guardrail P) → P → Context P → Context P × Option Response
check_request [] payload ctx = (record ctx { payload = payload }, none)
check_request (g ∷ gs) payload ctx =
    request_checked g (λ p c. check_request gs p c) payload ctx (g.check payload request ctx)

abbrev pub response_checked :
    {P : Type 0}
    → Guardrail P
    → (P → Context P → Context P × (P ⊎ Response))
    → P
    → Context P
    → Result P
    → Context P × (P ⊎ Response)
response_checked g next body ctx (deny reason) = (
  note (trail g.name (codes "deny_response")) ctx,
  inr (blocked reason (codes "Response blocked by guardrail.")),
)
response_checked g next body ctx (transform (some changed)) =
    next changed (note (trail g.name (codes "transform_response")) ctx)
response_checked g next body ctx (transform none) = next body ctx
response_checked g next body ctx allow = next body ctx

-- the loop of `after`
unfoldable pub check_response :
    {P : Type 0} → List (Guardrail P) → P → Context P → Context P × (P ⊎ Response)
check_response [] body ctx = (ctx, inl body)
check_response (g ∷ gs) body ctx =
    response_checked g (λ b c. check_response gs b c) body ctx (g.check body response ctx)

-- `GuardrailInterceptor`
unfoldable pub guardrail_interceptor : {W P C : Type 0} → List (Guardrail P) → Interceptor W P C
unfolding interceptor check_request check_response
guardrail_interceptor gs = record (interceptor (codes "guardrail")) {
  before = λ w ctx. (w, check_request gs ctx.payload ctx);
  after = λ w ctx body. (w, check_response gs body ctx);
}
