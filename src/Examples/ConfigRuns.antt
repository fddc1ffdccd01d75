-- ===== src/Examples/ConfigRuns.antt =====
-- A plugin asks for its configuration, without a key and without the group that the plugin needs.
use device_management.Prelude.Dict
use device_management.Prelude.Dict.{Dict}
use device_management.Relay.{
  denied, missing_headers, database, relay_auth_from_request, client_header, key_header,
}
use device_management.Config.{Value, text, Settings, Service}
use device_management.Config.Secrets.{HoldsNoSecret}
use device_management.Config.Devices.{PluginRow, keycloak_group, check_plugin_access}
use device_management.Config.Endpoint.{
  World, connected, Request, Body, Response, answer, Cache, get_config, is_cacheable,
  config_cache_get,
}
use device_management.Config.Endpoint.Cache.{Clean}
use device_management.Config.Endpoint.Cache.Secrets.{get_config-Clean, get_config-withholds_secrets}
use device_management.Config.Endpoint.Cache.Access.{get_config-ignores_access}
use device_management.Examples.RelayRuns.{sha256, settings}
use device_management.Prelude.{
  ℕ, ◌≡◌, refl, Bool, true, false, not, none, some, [], ◌∷◌, arith, if◌then◌else◌, none-ne-some,
  ◌==◌, nat_eq, string_eq, pair_eq, list_eq, Str, codes,
}

abbrev service : Service
service = record {
  telemetry_enabled = false;
  telemetry_endpoint = [];
  telemetry_authorization_type = [];
  telemetry_token_ttl_seconds = 300;
  bootstrap_urls = [];
  public_base = [];
  relay_force_keycloak_endpoints = false;
  relay_require_key_for_secrets = true;
  force_llm_endpoint_override = [];
  public_llm_proxy_url = codes "https://p";
  llm_base_url = [];
  embd_model_name = [];
}

abbrev template : Settings ℕ
template = (codes "llmToken", text (codes "secret")) ∷ (codes "model", text (codes "m")) ∷ []

abbrev plugin : PluginRow
plugin = record { id = 1; slug = codes "mirai"; device_type = codes "libreoffice"; active = true }

-- the plugin is for a group that the token of the first request has
abbrev world : World ℕ ℕ
world = record {
  pool = connected;
  plugins = record { rows = plugin ∷ []; aliases = [] };
  template = λ profile device_type device_name. some (template, none);
  substitute = λ config. config;
  service = service;
  telemetry_token = ([], none);
  env_overrides = λ id. [];
  keycloak_client = λ id. none;
  access = λ id. some (keycloak_group (codes "staff"));
  groups_of = λ authorization.
      if authorization == codes "Bearer t" then some (codes "staff" ∷ []) else none;
  approved = λ id. [];
  relay = settings;
  store = database [];
  llm_token = λ g. (codes "token", none);
  enrich = λ device headers features. (none, features);
  now = 100;
}

abbrev later : World ℕ ℕ
later = record world { now = 130 }

abbrev member : Request
member = record {
  profile = codes "prod";
  device = codes "mirai";
  headers = (codes "authorization", codes "Bearer t") ∷ [];
}

abbrev stranger : Request
stranger = record member { headers = [] }

abbrev str_of : Value ℕ → Str
str_of (text s) = s
str_of _ = []

abbrev truth_of : ℕ → Bool
truth_of n = not (n == 0)

abbrev notice : Str
notice = codes "no secrets"

abbrev outcome : Cache ℕ ℕ × Response ℕ ℕ
outcome = get_config str_of truth_of notice sha256 world member []

abbrev no_body : Body ℕ ℕ
no_body = record {
  device_type = [];
  device_name = [];
  client_uuid = [];
  profile = [];
  config = [];
  update = none;
  features = [];
}

abbrev body_in : Response ℕ ℕ → Body ℕ ℕ
body_in (answer hit cacheable body) = body
body_in _ = no_body

answered : outcome ≡ (outcome.0, answer false true (body_in outcome.1))
unfolding get_config Dict.get is_cacheable config_cache_get check_plugin_access
answered = refl

unnamed :
    relay_auth_from_request sha256 settings 100 member.headers (codes "config") false (database [])
    ≡ denied missing_headers
unfolding relay_auth_from_request client_header key_header Dict.get
unnamed = refl

abbrev no_cache : Cache ℕ ℕ
no_cache = []

empty_Clean : Clean truth_of no_cache
unfolding Dict.get
empty_Clean = record { secretless = λ key entry found. absurd (none-ne-some found) }

get_config-Clean_example : Clean truth_of outcome.0
get_config-Clean_example =
    get_config-Clean str_of truth_of notice sha256 world member [] refl empty_Clean

get_config-withholds_secrets_example : HoldsNoSecret truth_of (body_in outcome.1).config
get_config-withholds_secrets_example =
    get_config-withholds_secrets str_of truth_of notice sha256 world member [] outcome.0 false true
      (body_in outcome.1) missing_headers refl empty_Clean unnamed answered

get_config-ignores_access_example :
    get_config str_of truth_of notice sha256 later stranger outcome.0
    ≡ (outcome.0, answer true true (body_in outcome.1))
unfolding is_cacheable Dict.get
get_config-ignores_access_example =
    get_config-ignores_access str_of truth_of notice sha256 world later member stranger [] outcome.0
      (body_in outcome.1) answered (omega arith) refl refl refl
