-- ===== src/Llm/Auth.antt =====
-- app/llm/auth.py: the identity of an LLM request, from its relay headers or from its token, and the
-- check that the client of a token is still enrolled. Times are seconds.
pub mod Revocation
use device_management.Json.{Json, Fields, nil, end, num, str, bool, get_field}
use device_management.Prelude.Dict.{Dict}
use device_management.Llm.{Identity, Response, openai_error}
use device_management.Llm.Throttle.{Setting}
use device_management.Llm.Tokens.{
  Crypto, Verified, claims, refused, crashed, int_claim, verify_llm_token,
}
use device_management.Relay
use device_management.Relay.{
  Credential, ClientRow, Store, database, memory, Grant, Verdict, Denial, granted, denied, header,
  client_header, relay_auth_from_request,
}
use device_management.Prelude.{
  ℕ, zero, suc, ◌+◌, ◌-◌, ◌/◌, ◌<◌, refl, Bool, true, false, not, ◌&&◌, Option, none, some, [], ◌∷◌,
  ◌++◌, arith, ltb, if◌then◌else◌, or_else, is_some, take, any, ◌==◌, nat_eq, string_eq, pair_eq,
  pos, pos_part, list_eq, Str, codes, lower, strip,
}

abbrev pub nonempty : Str → Bool
nonempty [] = false
nonempty (c ∷ s) = true

-- `revoked_at IS NULL AND (expires_at IS NULL OR expires_at > now())`
abbrev pub unexpired : ℕ → Option ℕ → Bool
unexpired now none = true
unexpired now (some t) = ltb now t

unfoldable pub active_row : ℕ → Str → ClientRow → Bool
active_row now client_uuid r =
    r.client_uuid == client_uuid && (not (is_some r.revoked_at) && unexpired now r.expires_at)

-- a row of the store in memory, whose expiry is not read
unfoldable pub active_entry : Str → Str × Credential → Bool
active_entry client_uuid (id, c) = c.client_uuid == client_uuid && not c.revoked

-- `_client_uuid_is_active`; an empty store in memory accepts
unfoldable pub client_uuid_is_active : ℕ → Store → Str → Bool
unfolding active_row active_entry
client_uuid_is_active now store [] = false
client_uuid_is_active now (database rows) (c ∷ uuid) = any (active_row now (c ∷ uuid)) rows
client_uuid_is_active now (memory []) (c ∷ uuid) = true
client_uuid_is_active now (memory (e ∷ d)) (c ∷ uuid) = any (active_entry (c ∷ uuid)) (e ∷ d)

-- `str(payload.get(key) or "")`; `show` is Python's `str` of a value that is no text
abbrev pub text_claim : (Json → Str) → Option Json → Str
text_claim show (some (str s)) = codes s
text_claim show (some (bool true)) = codes "True"
text_claim show (some (bool false)) = []
text_claim show (some (num (pos zero))) = []
text_claim show (some Json.null) = []
text_claim show (some (Json.arr nil)) = []
text_claim show (some (Json.obj end)) = []
text_claim show (some j) = show j
text_claim show none = []

-- `expires_at or None`
abbrev pub nonzero : ℕ → Option ℕ
nonzero zero = none
nonzero (suc n) = some (suc n)

abbrev pub unauthorized : Str → Response
unauthorized message =
    openai_error 401 message (codes "invalid_request_error") (some (codes "invalid_api_key")) none

-- The identity, an error response, or an exception that nothing catches.
pub data Resolved : Type 0 where
  identified : Identity → Resolved
  rejected : Response → Resolved
  failed : Resolved

-- the text that the refusal of a relay client names
abbrev pub denial_text : Denial → Str
denial_text Relay.auth_disabled = codes "relay auth disabled"
denial_text Relay.invalid_proxy_token = codes "invalid relay proxy token"
denial_text Relay.missing_headers = codes "missing relay headers"
denial_text Relay.unknown_client = codes "unknown relay client"
denial_text Relay.key_revoked = codes "relay key revoked"
denial_text Relay.invalid_key = codes "invalid relay key"
denial_text Relay.key_expired = codes "relay key expired"
denial_text (Relay.target_not_allowed t) = codes "target '" ++ t ++ codes "' not allowed"

abbrev pub by_relay : Verdict → Resolved
by_relay (denied d) =
    rejected (unauthorized (codes "Relay authentication failed: " ++ denial_text d ++ codes "."))
by_relay (granted g) = identified (record {
  client_uuid = g.client_uuid;
  email = g.email;
  auth_method = codes "relay_headers";
  expires_at = nonzero g.expires_at;
})

unfoldable pub by_claims : (Json → Str) → ℕ → Store → Verified → Resolved
unfolding client_uuid_is_active int_claim
by_claims show now store (refused r) = rejected r
by_claims show now store crashed = failed
by_claims show now store (claims fs) =
    let client_uuid = text_claim show (get_field fs "client_uuid") in
    if client_uuid_is_active now store client_uuid
    then identified (record {
      client_uuid = client_uuid;
      email = text_claim show (get_field fs "email");
      auth_method = codes "llm_token";
      expires_at = nonzero (pos_part (or_else (int_claim (get_field fs "exp")) (pos 0)));
    })
    else rejected (unauthorized (codes "Relay client revoked or expired."))

abbrev pub missing_credentials : Resolved
missing_credentials = rejected (
    unauthorized (
      codes
        "Missing credentials: provide X-Relay-Client/X-Relay-Key headers or Authorization: Bearer <llmToken> (obtained from /config after enrollment)."))

-- the first characters of a text, and what follows them
abbrev pub drop : ℕ → Str → Str
drop zero s = s
drop (suc n) [] = []
drop (suc n) (c ∷ s) = drop n s

-- the token of `Authorization: Bearer …`, empty where there is none
unfoldable pub bearer : Dict Str Str → Str
bearer headers =
    let auth = strip (header headers (codes "authorization")) in
    if take 7 (lower auth) == codes "bearer " then strip (drop 7 auth) else []

abbrev pub by_token : Crypto → (Json → Str) → Setting → ℕ → Store → Str → Resolved
by_token lib show key_setting now store [] = missing_credentials
by_token lib show key_setting now store (c ∷ token) =
    by_claims show now store (verify_llm_token lib key_setting now (c ∷ token))

-- `LlmAuthenticator.resolve`
unfoldable pub resolve :
    (Str → Str)
    → Crypto
    → (Json → Str)
    → Relay.Settings
    → Setting
    → ℕ
    → Dict Str Str
    → Store
    → Resolved
unfolding by_claims relay_auth_from_request client_header bearer verify_llm_token
resolve sha256 lib show cfg key_setting now headers store =
    if nonempty (strip (client_header headers))
    then by_relay (relay_auth_from_request sha256 cfg now headers (codes "llm") false store)
    else by_token lib show key_setting now store (bearer headers)
