-- ===== src/Config.antt =====
-- The endpoint `/config/config.json` of app/main.py: the configuration that a plugin receives. Here
-- are the stages that write it: the merge of the template, the settings of the service, the
-- catalogue's overrides, the removal of secrets and the address of the proxy of language models.
-- Endpoint joins them.
pub mod Devices
pub mod Endpoint
pub mod Secrets
use device_management.Prelude.Dict
use device_management.Prelude.Dict.{Dict}
use device_management.Prelude.Text.{nonempty, starts_with}
use device_management.Prelude.{
  ℕ, ◌+◌, ◌-◌, ◌/◌, refl, Bool, true, false, not, ◌&&◌, Option, none, some, List, [], ◌∷◌, ◌++◌,
  map, arith, if◌then◌else◌, is_some, any, ◌==◌, nat_eq, string_eq, pair_eq, list_eq, Str, codes,
  lower, strip, elem, first_text,
}

-- A value of the configuration: those that the code writes or tests, and other JSON values.
pub data Value (J : Type 0) : Type 0 where
  text : Str → Value J
  bool : Bool → Value J
  number : ℕ → Value J
  urls : List Str → Value J
  toggles : Dict Str J → Value J
  other : J → Value J

abbrev pub Settings : Type 0 → Type 0
Settings J = Dict Str (Value J)

-- `bool(value)`
abbrev pub truth : {J : Type 0} → (J → Bool) → Value J → Bool
truth truth_of (text s) = nonempty s
truth truth_of (bool b) = b
truth truth_of (number n) = not (n == 0)
truth truth_of (urls us) = not (us == [])
truth truth_of (toggles []) = false
truth truth_of (toggles (t ∷ ts)) = true
truth truth_of (other j) = truth_of j

-- `{**d, **e}`, and the loop `d[key] = value`
unfoldable pub merge {ℓ} : {V : Type ℓ} → Dict Str V → Dict Str V → Dict Str V
merge d [] = d
merge d ((k, v) ∷ e) = merge (Dict.put d k v) e

-- `featureToggles` of both sections, where both are objects
abbrev pub merged_toggles :
    {J : Type 0} → Option (Value J) → Option (Value J) → Settings J → Settings J
merged_toggles (some (toggles d)) (some (toggles e)) merged =
    Dict.put merged (codes "featureToggles") (toggles (merge d e))
merged_toggles _ _ merged = merged

-- the section of the profile; `none` where it is no object
abbrev pub merge_profile : {J : Type 0} → Settings J → Option (Settings J) → Settings J
merge_profile default none = default
merge_profile default (some section) =
    merged_toggles (Dict.get default (codes "featureToggles"))
      (Dict.get section (codes "featureToggles")) (merge default section)

-- the `config` of `_build_config_from_template`
unfoldable pub build_config_from_template :
    {J : Type 0} → Settings J → Option (Settings J) → Settings J
unfolding merge
build_config_from_template default section =
    Dict.pop (merge_profile default section) (codes "_description")

-- What the service's settings and environment say. `public_base` is stripped and has no slash at
-- its end, and the other texts are as they are used.
pub record Service : Type 0 where
  pub telemetry_enabled : Bool
  pub telemetry_endpoint : Str
  pub telemetry_authorization_type : Str
  pub telemetry_token_ttl_seconds : ℕ
  pub bootstrap_urls : List Str
  pub public_base : Str
  pub relay_force_keycloak_endpoints : Bool
  pub relay_require_key_for_secrets : Bool
  pub force_llm_endpoint_override : Str
  pub public_llm_proxy_url : Str
  pub llm_base_url : Str
  pub embd_model_name : Str

abbrev pub with_urls : {J : Type 0} → List Str → Settings J → Settings J
with_urls [] config = config
with_urls (u ∷ us) config = Dict.put config (codes "bootstrapUrls") (urls (u ∷ us))

abbrev pub with_keycloak : {J : Type 0} → Service → Settings J → Settings J
with_keycloak s config =
    if s.relay_force_keycloak_endpoints
    then Dict.put
        (Dict.put config (codes "keycloakTokenEndpoint")
          (text (s.public_base ++ codes "/auth/token")))
        (codes "keycloakUserinfoEndpoint")
        (text (s.public_base ++ codes "/relay-assistant/keycloak/protocol/openid-connect/userinfo"))
    else config

abbrev pub with_base : {J : Type 0} → Service → Settings J → Settings J
with_base s config =
    if nonempty s.public_base
    then with_keycloak s (
        Dict.put config (codes "relayAssistantBaseUrl")
          (text (s.public_base ++ codes "/relay-assistant")))
    else config

abbrev pub with_expiry : {J : Type 0} → Service → Option ℕ → Settings J → Settings J
with_expiry s none config = config
with_expiry s (some expires_at) config =
    Dict.put (Dict.put config (codes "telemetryKeyExpiresAt") (number expires_at))
      (codes "telemetryKeyTtlSeconds") (number s.telemetry_token_ttl_seconds)

-- `minted` is the token of `_mint_telemetry_token` and its expiry.
abbrev pub telemetry_key : Service → Str × Option ℕ → Str × Option ℕ
telemetry_key s minted =
    if s.telemetry_enabled && lower s.telemetry_authorization_type == codes "bearer"
    then minted
    else ([], none)

unfoldable pub apply_overrides : {J : Type 0} → Service → Str × Option ℕ → Settings J → Settings J
apply_overrides s minted config =
    let (token, expires_at) = telemetry_key s minted in
    let enabled = Dict.put config (codes "telemetryEnabled") (bool s.telemetry_enabled) in
    let endpoint = Dict.put enabled (codes "telemetryEndpoint") (text s.telemetry_endpoint) in
    let authorized =
      Dict.put endpoint (codes "telemetryAuthorizationType")
        (text s.telemetry_authorization_type) in
    with_expiry s expires_at (
      Dict.put (with_base s (with_urls s.bootstrap_urls authorized)) (codes "telemetryKey")
        (text token))

-- The rows of `plugin_env_overrides`, and the client and realm of Keycloak.
unfoldable pub apply_catalog_overrides :
    {J : Type 0} → Dict Str Str → Option (Str × Str) → Settings J → Settings J
unfolding merge
apply_catalog_overrides rows none config =
    merge config (map (λ (r : Str × Str). (r.0, text r.1)) rows)
apply_catalog_overrides rows (some (client_id, realm)) config =
    Dict.put
      (Dict.put (merge config (map (λ (r : Str × Str). (r.0, text r.1)) rows))
        (codes "keycloakClientId") (text client_id))
      (codes "keycloakRealm") (text realm)

-- The keys in some order of the set.
abbrev pub secret_config_keys : List Str
secret_config_keys = map codes (
    "llm_api_tokens" ∷ "llmToken" ∷ "tokenOWUI" ∷ "telemetryKey" ∷ "keycloak_client_secret"
    ∷ "keycloakClientSecret" ∷ [])

module _ {J : Type 0} (truth_of : J → Bool) where
  abbrev pub held : Option (Value J) → Bool
  held none = false
  held (some v) = truth truth_of v

  -- `config.get(key)` as a condition
  abbrev pub holds_secret : Settings J → Str → Bool
  holds_secret config key = held (Dict.get config key)

  -- the loop over the secret keys
  unfoldable pub scrub_keys : List Str → Settings J → Settings J
  scrub_keys [] config = config
  scrub_keys (key ∷ keys) config =
      scrub_keys keys (if holds_secret config key then Dict.put config key (text []) else config)

  unfoldable pub scrub_secret_values : Str → Settings J → Settings J
  unfolding scrub_keys
  scrub_secret_values notice config =
      let has_secrets = any (holds_secret config) secret_config_keys in
      let scrubbed = scrub_keys secret_config_keys config in
      let aliased =
        if is_some (Dict.get scrubbed (codes "authHeaderKey"))
        then Dict.put scrubbed (codes "authHeaderKey") (text [])
        else scrubbed in
      if has_secrets then Dict.put aliased (codes "_auth_notice") (text notice) else aliased

-- `FORCE_LLM_ENDPOINT_OVERRIDE`, on by default
unfoldable pub forces_llm_endpoint : Str → Bool
forces_llm_endpoint setting =
    let raw = lower (strip setting) in
    if nonempty raw
    then elem raw (codes "1" ∷ codes "true" ∷ codes "yes" ∷ codes "on" ∷ [])
    else true

abbrev pub with_llm_token : {J : Type 0} → Option (Str × Option ℕ) → Settings J → Settings J
with_llm_token none config = config
with_llm_token (some ([], expires_at)) config = config
with_llm_token (some (c ∷ s, none)) config =
    Dict.put (Dict.put config (codes "llmToken") (text (c ∷ s))) (codes "llm_api_tokens")
      (text (c ∷ s))
with_llm_token (some (c ∷ s, some expires_at)) config =
    Dict.put
      (Dict.put (Dict.put config (codes "llmToken") (text (c ∷ s))) (codes "llm_api_tokens")
        (text (c ∷ s)))
      (codes "llmTokenExpiresAt") (number expires_at)

module _ {J : Type 0} (str_of : Value J → Str) (truth_of : J → Bool) where
  -- `str(config_obj.get(key) or "")`
  abbrev pub text_at : Settings J → Str → Str
  text_at config key = elim (Dict.get config key) [
    | none ↦ []
    | some v ↦ if truth truth_of v then str_of v else []
  ]

  abbrev pub with_embedder : Service → Settings J → Settings J
  with_embedder s config =
      let model = Dict.put config (codes "embdModel") (text s.embd_model_name) in
      let url = Dict.put model (codes "embdUrl") (text (text_at model (codes "llmEndpoint"))) in
      Dict.put url (codes "embdToken") (text (text_at url (codes "llmToken")))

  -- the mode of the proxy: the key of the backend is never sent
  abbrev pub proxied : Str → Option (Str × Option ℕ) → Settings J → Settings J
  proxied url minted config =
      let endpoint = Dict.put config (codes "llmEndpoint") (text url) in
      let bases = Dict.put endpoint (codes "llm_base_urls") (text url) in
      let relay = Dict.put bases (codes "relayAssistantBaseUrl") (text url) in
      let tokens = Dict.put relay (codes "llm_api_tokens") (text []) in
      with_llm_token minted (Dict.put tokens (codes "llmToken") (text []))

  abbrev pub direct : Service → Settings J → Settings J
  direct s config =
      Dict.put config (codes "llmEndpoint")
        (text (first_text (strip s.llm_base_url) (text_at config (codes "llm_base_urls"))))

  -- `minted` is the token of the client where the relay has accepted it.
  unfoldable pub apply_llm_proxy_overrides :
      Service → Option (Str × Option ℕ) → Settings J → Settings J
  unfolding forces_llm_endpoint
  apply_llm_proxy_overrides s minted config = with_embedder s (
      if forces_llm_endpoint s.force_llm_endpoint_override && nonempty s.public_llm_proxy_url
      then proxied s.public_llm_proxy_url minted config
      else direct s config)
