-- ===== src/RuntimeConfig/Keys.antt =====
-- The registry `EDITABLE_KEYS` of app/runtime_config.py: the settings that an administrator may
-- override while the server runs. Labels and groups, which only the pages show, are left out.
use device_management.Prelude.{String, ℤ, pos, Bool, true, false, Option, none, some, List, [], ◌∷◌}

-- No key is a `float`, which the code allows for.
pub data ValueType : Type 0 where
  bool_type int_type str_type list_type : ValueType

pub record ConfigKeySpec : Type 0 where
  pub env_name : String
  pub value_type : ValueType
  pub hot_reloadable : Bool
  pub sensitive : Bool
  pub settings_field : Option String
  pub minimum : Option ℤ
  pub maximum : Option ℤ

-- a setting of no range and no field of `Settings`
abbrev pub spec : String → ValueType → Bool → ConfigKeySpec
spec env_name value_type hot_reloadable = record {
  env_name = env_name;
  value_type = value_type;
  hot_reloadable = hot_reloadable;
  sensitive = false;
  settings_field = none;
  minimum = none;
  maximum = none;
}

abbrev pub secret : ConfigKeySpec → ConfigKeySpec
secret s = record s { sensitive = true }

abbrev pub with_field : String → ConfigKeySpec → ConfigKeySpec
with_field field s = record s { settings_field = some field }

abbrev pub within : Option ℤ → Option ℤ → ConfigKeySpec → ConfigKeySpec
within low high s = record s { minimum = low; maximum = high }

abbrev pub editable_keys : List ConfigKeySpec
editable_keys =
    spec "API_BASE" str_type true
    ∷ spec "RELAY_ASSISTANT_BASE_URL" str_type false
    ∷ spec "COMPTE_RENDU_URL" str_type true
    ∷ spec "COMU_URL" str_type true
    ∷ spec "PUBLIC_BASE_URL" str_type true
    ∷ spec "DM_BOOTSTRAP_URLS" list_type true
    ∷ spec "KEYCLOAK_ISSUER_URL" str_type false
    ∷ spec "KEYCLOAK_REALM" str_type false
    ∷ spec "KEYCLOAK_CLIENT_ID" str_type false
    ∷ spec "KEYCLOAK_REDIRECT_URI" str_type false
    ∷ spec "KEYCLOAK_ALLOWED_REDIRECT_URI" str_type true
    ∷ secret (spec "ADMIN_OIDC_CLIENT_SECRET" str_type false)
    ∷ spec "LLM_BASE_URL" str_type true
    ∷ secret (spec "LLM_API_TOKEN" str_type true)
    ∷ spec "DEFAULT_MODEL_NAME" str_type true
    ∷ spec "EMBD_MODEL_NAME" str_type true
    ∷ spec "FORCE_LLM_ENDPOINT_OVERRIDE" bool_type true
    ∷ spec "PUBLIC_LLM_PROXY_URL" str_type true
    ∷ secret (spec "DM_LLM_TOKEN_SIGNING_KEY" str_type true)
    ∷ within (some (pos 60)) (some (pos 86400)) (spec "DM_LLM_TOKEN_TTL_SECONDS" int_type true)
    ∷ within (some (pos 0)) none (spec "LLM_QUOTA_REQUESTS_PER_MINUTE" int_type true)
    ∷ within (some (pos 10)) (some (pos 3600)) (spec "LLM_QUOTA_WINDOW_SECONDS" int_type true)
    ∷ spec "LLM_BACKENDS" str_type true
    ∷ spec "LLM_GUARDRAILS" str_type true
    ∷ within (some (pos 10)) (some (pos 600)) (spec "DM_LLM_READ_TIMEOUT_SECONDS" int_type true)
    ∷ with_field "telemetry_enabled" (spec "DM_TELEMETRY_ENABLED" bool_type true)
    ∷ with_field "telemetry_public_endpoint" (spec "DM_TELEMETRY_PUBLIC_ENDPOINT" str_type true)
    ∷ with_field "telemetry_upstream_endpoint" (spec "DM_TELEMETRY_UPSTREAM_ENDPOINT" str_type true)
    ∷ secret (with_field "telemetry_upstream_key" (spec "DM_TELEMETRY_UPSTREAM_KEY" str_type true))
    ∷ secret (
        with_field "telemetry_token_signing_key"
          (spec "DM_TELEMETRY_TOKEN_SIGNING_KEY" str_type true))
    ∷ with_field "telemetry_require_token" (spec "DM_TELEMETRY_REQUIRE_TOKEN" bool_type true)
    ∷ secret
        (with_field "relay_proxy_shared_token" (spec "DM_RELAY_PROXY_SHARED_TOKEN" str_type true))
    ∷ secret (with_field "relay_secret_pepper" (spec "DM_RELAY_SECRET_PEPPER" str_type true))
    ∷ []
