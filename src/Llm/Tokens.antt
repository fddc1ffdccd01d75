-- ===== src/Llm/Tokens.antt =====
-- app/llm/tokens.py: the signed tokens of the LLM proxy, and the base64url helpers of
-- app/services/crypto.py that they use. HMAC, base64 and the JSON printer and parser are parameters.
pub mod Encoding
pub mod Signatures
use device_management.Json.{
  Json, Fields, obj, num, str, bool, null, arr, nil, end, field, get_field,
}
use device_management.Prelude.Text.{int_of}
use device_management.Llm.{Response, openai_error}
use device_management.Llm.Throttle.{Setting}
use device_management.Prelude.{
  ℕ, zero, suc, ◌+◌, ◌-◌, ◌%◌, String, refl, Bool, true, false, not, Option, none, some, [], ◌∷◌,
  ◌++◌, arith, leb, if◌then◌else◌, or_else, length, ◌==◌, nat_eq, string_eq, pair_eq, ℤ, pos,
  pos_part, at_least, list_eq, Str, codes, strip, str_ltb,
}

-- What the code calls of the libraries. A text of bytes is a list of numbers; `dumps` prints the
-- fields of an object in the order that it is given.
pub record Crypto : Type 0 where
  pub hmac_sha256 : Str → Str → Str
  pub urlsafe_b64encode : Str → Str
  pub urlsafe_b64decode : Str → Option Str
  pub dumps : Json → Str
  pub loads : Str → Option Json

abbrev pub padding : ℕ → Str
padding zero = []
padding (suc n) = b'=' ∷ padding n

-- `s.rstrip("=")`
abbrev pub rstrip_padding : Str → Str
rstrip_padding [] = []
rstrip_padding (c ∷ s) = elim (rstrip_padding s) [
  | [] ↦ if c == b'=' then [] else c ∷ []
  | d ∷ r ↦ c ∷ d ∷ r
]

unfoldable pub b64url_encode : Crypto → Str → Str
b64url_encode lib raw = rstrip_padding (lib.urlsafe_b64encode raw)

unfoldable pub b64url_decode : Crypto → Str → Option Str
b64url_decode lib raw = lib.urlsafe_b64decode (raw ++ padding ((4 - length raw % 4) % 4))

-- `token.split(".", 1)`; `none` where there is no dot
abbrev pub before_dot : ℕ → Option (Str × Str) → Option (Str × Str)
before_dot c none = none
before_dot c (some (s, t)) = some (c ∷ s, t)

unfoldable pub split_dot : Str → Option (Str × Str)
split_dot [] = none
split_dot (c ∷ s) = let rest = split_dot s in if c == b'.' then some ([], s) else before_dot c rest

-- `_signing_key`
unfoldable pub signing_key : Setting → Str
signing_key none = []
signing_key (some s) = strip s

-- `_ttl_seconds`
unfoldable pub ttl_seconds : Setting → ℕ
ttl_seconds none = 3600
ttl_seconds (some s) = at_least 60 (or_else (int_of s) (pos 3600))

abbrev pub token_payload : String → ℕ → ℕ → String → String → Json
token_payload jti now exp client_uuid email = obj (
    field "jti" (str jti) (
      field "iat" (num (pos now)) (
        field "exp" (num (pos exp)) (
          field "client_uuid" (str client_uuid)
            (field "email" (str email) (field "scope" (str "llm") end))))))

abbrev insert_key : String → Json → Fields → Fields
insert_key k v end = field k v end
insert_key k v (field l w fs) =
    let rest = insert_key k v fs in
    if str_ltb (codes l) (codes k) then field l w rest else field k v (field l w fs)

-- `sort_keys=True`, for an object without nested ones
unfoldable pub sort_keys : Fields → Fields
sort_keys end = end
sort_keys (field k v fs) = insert_key k v (sort_keys fs)

abbrev pub sorted : Json → Json
sorted (obj fs) = obj (sort_keys fs)
sorted v = v

-- a payload, printed in the order of its keys, and its signature as a token
unfoldable pub signed : Crypto → Str → Json → Str
unfolding b64url_encode sort_keys
signed lib secret payload =
    let payload_b64 = b64url_encode lib (lib.dumps (sorted payload)) in
    payload_b64 ++ b'.' ∷ b64url_encode lib (lib.hmac_sha256 secret payload_b64)

unfoldable pub mint_with : Crypto → ℕ → ℕ → String → String → String → Str → Str × Option ℕ
unfolding signed
mint_with lib ttl now jti client_uuid email [] = ([], none)
mint_with lib ttl now jti client_uuid email (c ∷ secret) = (
  signed lib (c ∷ secret) (token_payload jti now (now + ttl) client_uuid email),
  some (now + ttl),
)

-- `jti` is the random identifier.
unfoldable pub mint_llm_token :
    Crypto → Setting → Setting → ℕ → String → String → String → Str × Option ℕ
unfolding signing_key ttl_seconds mint_with
mint_llm_token lib key_setting ttl_setting now jti client_uuid email =
    mint_with lib (ttl_seconds ttl_setting) now jti client_uuid email (signing_key key_setting)

-- The claims, an error response, or an exception that nothing catches.
pub data Verified : Type 0 where
  claims : Fields → Verified
  refused : Response → Verified
  crashed : Verified

abbrev pub invalid : Str → Verified
invalid message =
    refused (
      openai_error 401 message (codes "invalid_request_error") (some (codes "invalid_api_key"))
        none)

abbrev pub is_llm_scope : Option Json → Bool
is_llm_scope (some (str s)) = s == "llm"
is_llm_scope _ = false

-- `int(payload.get("exp") or 0)`; `none` is its exception
unfoldable pub int_claim : Option Json → Option ℤ
int_claim none = some (pos 0)
int_claim (some null) = some (pos 0)
int_claim (some (bool true)) = some (pos 1)
int_claim (some (bool false)) = some (pos 0)
int_claim (some (num n)) = some n
int_claim (some (str s)) = elim (codes s) [ [] ↦ some (pos 0) | c ∷ cs ↦ int_of (c ∷ cs) ]
int_claim (some (arr nil)) = some (pos 0)
int_claim (some (arr _)) = none
int_claim (some (obj end)) = some (pos 0)
int_claim (some (obj _)) = none

abbrev pub check_expiry : ℕ → Fields → Option ℤ → Verified
check_expiry now fs none = crashed
check_expiry now fs (some exp) =
    if leb (pos_part exp) now then invalid (codes "Llm token expired.") else claims fs

unfoldable pub check_payload : ℕ → Option Json → Verified
unfolding int_claim
check_payload now none = invalid (codes "Malformed llm token payload.")
check_payload now (some (obj fs)) =
    if is_llm_scope (get_field fs "scope")
    then check_expiry now fs (int_claim (get_field fs "exp"))
    else invalid (codes "Invalid llm token payload.")
check_payload now (some _) = invalid (codes "Invalid llm token payload.")

abbrev pub parsed : Crypto → Option Str → Option Json
parsed lib none = none
parsed lib (some raw) = lib.loads raw

unfoldable pub check_signature : Crypto → ℕ → Str → Str → Option Str → Verified
unfolding b64url_decode check_payload
check_signature lib now secret payload_b64 none = invalid (codes "Malformed llm token signature.")
check_signature lib now secret payload_b64 (some provided) =
    if lib.hmac_sha256 secret payload_b64 == provided
    then check_payload now (parsed lib (b64url_decode lib payload_b64))
    else invalid (codes "Invalid llm token signature.")

unfoldable pub verify_token : Crypto → ℕ → Str → Option (Str × Str) → Verified
unfolding check_signature b64url_decode
verify_token lib now secret none = invalid (codes "Malformed llm token.")
verify_token lib now secret (some (payload_b64, sig_b64)) =
    check_signature lib now secret payload_b64 (b64url_decode lib sig_b64)

unfoldable pub verify_with : Crypto → ℕ → Str → Str → Verified
unfolding verify_token split_dot
verify_with lib now token [] = refused (
    openai_error 503 (codes "LLM token verification key is not configured.") (codes "api_error")
      none none)
verify_with lib now token (c ∷ secret) = verify_token lib now (c ∷ secret) (split_dot token)

unfoldable pub verify_llm_token : Crypto → Setting → ℕ → Str → Verified
unfolding signing_key verify_with
verify_llm_token lib key_setting now token = verify_with lib now token (signing_key key_setting)
