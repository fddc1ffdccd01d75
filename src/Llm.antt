-- ===== src/Llm.antt =====
-- The LLM proxy, app/llm: the identity of a request and its context (auth.py, pipeline.py), and the
-- error responses (errors.py). Times are microseconds.
pub mod Throttle
pub mod Traffic
pub mod Pipeline
pub mod Guardrails
pub mod Tokens
pub mod Auth
use device_management.Prelude.Dict.{Dict}
use device_management.Prelude.{
  ℕ, ◌+◌, ◌-◌, refl, true, false, Option, none, some, List, [], ◌∷◌, ◌++◌, arith, if◌then◌else◌,
  nat_eq, string_eq, pair_eq, ℤ, list_eq, Str, codes, decimal,
}

pub record Identity : Type 0 where
  pub client_uuid : Str
  pub email : Str
  pub auth_method : Str
  pub expires_at : Option ℕ

pub record Quota : Type 0 where
  pub count : ℕ
  pub limit : ℤ
  pub window_seconds : ℕ

-- `P` is the payload, and `verdicts` the trail that the interceptors leave.
pub record Context (P : Type 0) : Type 0 where
  pub identity : Identity
  pub payload : P
  pub verdicts : List Str
  pub quota : Option Quota

-- `openai_error`: the status, the `error` object, and `retry_after` in the body and the header
pub record Response : Type 0 where
  pub status_code : ℕ
  pub message : Str
  pub err_type : Str
  pub code : Option Str
  pub retry_after : Option ℕ
  pub headers : Dict Str Str

abbrev pub retry_header : Option ℕ → Dict Str Str
retry_header none = []
retry_header (some n) = (codes "Retry-After", decimal n) ∷ []

unfoldable pub openai_error : ℕ → Str → Str → Option Str → Option ℕ → Response
openai_error status_code message err_type code retry_after = record {
  status_code = status_code;
  message = message;
  err_type = err_type;
  code = code;
  retry_after = retry_after;
  headers = retry_header retry_after;
}

-- `ctx.verdicts.append(…)`
abbrev pub note : {P : Type 0} → Str → Context P → Context P
note verdict ctx = record ctx { verdicts = ctx.verdicts ++ verdict ∷ [] }
