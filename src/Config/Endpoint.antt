-- ===== src/Config/Endpoint.antt =====
-- `get_config` of app/main.py with its cache of responses. What the flags and campaigns add is a
-- parameter, modelled in Campaigns/Enrichment; a statement of the database that fails is one whose
-- result is missing. The body leaves out the time and the platform's variant.
pub mod Cache
use device_management.Prelude.Dict
use device_management.Prelude.Dict.{Dict}
use device_management.Prelude.Text.{nonempty, starts_with}
use device_management.Relay.{Store, Verdict, denied, granted, Grant, relay_auth_from_request}
use device_management.Relay
use device_management.Config.{
  Value, text, bool, toggles, Settings, Service, build_config_from_template, apply_overrides,
  apply_catalog_overrides, scrub_secret_values, apply_llm_proxy_overrides,
}
use device_management.Config.Devices.{
  Plugins, Device, fallback_device, resolve_device, Access, header, check_plugin_access,
}
use device_management.Prelude.{
  ℕ, ◌+◌, ◌-◌, ◌/◌, refl, Bool, true, false, not, ◌&&◌, ◌||◌, Option, none, some, List, [], ◌∷◌,
  ◌++◌, arith, ltb, if◌then◌else◌, length, nat_eq, string_eq, pair_eq, list_eq, Str, codes, strip,
  first_text,
}

-- How the database answers, through the pool or a connection of its own: with rows, with an
-- exception, or not at all, where none is set up.
pub data Pool : Type 0 where
  connected failing absent : Pool

-- What the request meets: `template` gives the sections of the device's template, or none.
pub record World (J D : Type 0) : Type 0 where
  pub pool : Pool
  pub plugins : Plugins
  pub template : Str → Str → Str → Option (Settings J × Option (Settings J))
  pub substitute : Settings J → Settings J
  pub service : Service
  pub telemetry_token : Str × Option ℕ
  pub env_overrides : ℕ → Dict Str Str
  pub keycloak_client : ℕ → Option (Str × Str)
  pub access : ℕ → Option Access
  pub groups_of : Str → Option (List Str)
  pub approved : ℕ → List Str
  pub relay : Relay.Settings
  pub store : Store
  pub llm_token : Grant → Str × Option ℕ
  pub enrich : Device → Dict Str Str → Dict Str J → Option D × Dict Str J
  pub now : ℕ

-- `profile` and `device` as the path gives them, stripped and in lower case.
pub record Request : Type 0 where
  pub profile : Str
  pub device : Str
  pub headers : Dict Str Str

pub record Body (J D : Type 0) : Type 0 where
  pub device_type : Str
  pub device_name : Str
  pub client_uuid : Str
  pub profile : Str
  pub config : Settings J
  pub update : Option D
  pub features : Dict Str J

-- `answer hit cacheable body`
pub data Response (J D : Type 0) : Type 0 where
  bad_request server_error : Response J D
  access_denied : Str → Option Access → Response J D
  answer : Bool → Bool → Body J D → Response J D

abbrev pub Cache : Type 0 → Type 0 → Type 0
Cache J D = Dict Str (ℕ × Body J D)

abbrev pub cache_ttl : ℕ
cache_ttl = 60

abbrev pub has_header : Dict Str Str → Str → Bool
has_header headers name = nonempty (strip (header headers name))

-- whether the response may come from the cache and go into it
unfoldable pub is_cacheable : Dict Str Str → Bool
is_cacheable headers =
    not (
      has_header headers (codes "x-plugin-version")
      || (has_header headers (codes "x-client-uuid") || has_header headers (codes "x-user-email")))
    && not (
        nonempty (
          strip (
            first_text (header headers (codes "x-relay-client"))
              (header headers (codes "x-client-id")))))

unfoldable pub cache_key : Request → Str
cache_key r = first_text r.device (codes "_") ++ (b':' ∷ r.profile)

abbrev pub with_name : {J : Type 0} → Str → Settings J → Settings J
with_name [] config = config
with_name (c ∷ s) config =
    Dict.put (Dict.put config (codes "device_name") (text (c ∷ s))) (codes "config_path")
      (text (codes "/config/" ++ ((c ∷ s) ++ codes "/config.json")))

abbrev pub template_toggles : {J : Type 0} → Settings J → Dict Str J
template_toggles config = elim (Dict.get config (codes "featureToggles")) [
  | some (toggles t) ↦ t
  | other ↦ []
]

module _ {J D : Type 0} where
  abbrev pub from_cache :
      Option (Body J D) → Cache J D × Response J D → Cache J D → Cache J D × Response J D
  from_cache none miss cache = miss
  from_cache (some body) miss cache = (cache, answer true true body)

  -- an entry that has not expired
  abbrev pub live : ℕ → Option (ℕ × Body J D) → Option (Body J D)
  live now none = none
  live now (some (expires_at, body)) = if ltb now expires_at then some body else none

  unfoldable pub config_cache_get : Cache J D → Str → ℕ → Option (Body J D)
  config_cache_get cache key now = live now (Dict.get cache key)

  unfoldable pub config_cache_set : Cache J D → Str → Body J D → ℕ → Cache J D
  config_cache_set cache key body now = Dict.put cache key (now + cache_ttl, body)

  -- the device of a request; `none` is unknown
  unfoldable pub device_for : World J D → Str → Option Device
  unfolding resolve_device
  device_for w [] = some (record { device_name = []; device_type = []; plugin_id = none })
  device_for w (c ∷ s) = elim w.pool [
    | connected ↦ resolve_device (c ∷ s) w.plugins
    | failing ↦ fallback_device (c ∷ s)
    | absent ↦ some (record { device_name = c ∷ s; device_type = c ∷ s; plugin_id = none })
  ]

  abbrev pub with_catalog : World J D → Option ℕ → Settings J → Settings J
  with_catalog w none config = config
  with_catalog w (some id) config =
      apply_catalog_overrides (w.env_overrides id) (w.keycloak_client id) config

  abbrev pub has_access : World J D → Dict Str Str → Option ℕ → Bool
  has_access w headers none = true
  has_access w headers (some id) =
      check_plugin_access w.groups_of (w.approved id) headers (w.access id)

  abbrev pub access_of : World J D → Option ℕ → Option Access
  access_of w none = none
  access_of w (some id) = w.access id

module _ {J D : Type 0} (str_of : Value J → Str) (truth_of : J → Bool) (notice : Str)
    (sha256 : Str → Str) where
  -- `_relay_auth_from_request(request, target="config")`
  abbrev pub relay_verdict : World J D → Dict Str Str → Verdict
  relay_verdict w headers =
      relay_auth_from_request sha256 w.relay w.now headers (codes "config") false w.store

  -- the removal of secrets, and the token of the client where the relay has accepted it
  unfoldable pub secured : World J D → Verdict → Settings J → Settings J
  secured w (granted g) config =
      apply_llm_proxy_overrides str_of truth_of w.service (some (w.llm_token g)) config
  secured w (denied d) config = apply_llm_proxy_overrides str_of truth_of w.service none (
      if w.service.relay_require_key_for_secrets
      then scrub_secret_values truth_of notice config
      else config)

  -- the configuration before secrets are removed
  unfoldable pub assembled : World J D → Device → Settings J × Option (Settings J) → Settings J
  assembled w d sections = with_name d.device_name (
      with_catalog w d.plugin_id (
        apply_overrides w.service w.telemetry_token
          (w.substitute (build_config_from_template sections.0 sections.1))))

  unfoldable pub body_of : World J D → Request → Device → Settings J → Body J D
  body_of w r d config =
      let enriched = w.enrich d r.headers (template_toggles config) in
      record {
        device_type = first_text d.device_type (codes "misc");
        device_name = first_text d.device_name (first_text r.device (codes "misc"));
        client_uuid = strip (header r.headers (codes "x-client-uuid"));
        profile = r.profile;
        config = config;
        update = enriched.0;
        features = enriched.1;
      }

  abbrev pub respond :
      World J D
      → Request
      → Device
      → Option (Settings J × Option (Settings J))
      → Cache J D
      → Cache J D × Response J D
  respond w r d none cache = (cache, server_error)
  respond w r d (some sections) cache =
      if has_access w r.headers d.plugin_id
      then (let body =
            body_of w r d (secured w (relay_verdict w r.headers) (assembled w d sections)) in
          (
            if is_cacheable r.headers
                then config_cache_set cache (cache_key r) body w.now
                else cache,
            answer false (is_cacheable r.headers) body,
          ))
      else (cache, access_denied d.device_name (access_of w d.plugin_id))

  abbrev pub for_device : World J D → Request → Option Device → Cache J D → Cache J D × Response J D
  for_device w r none cache = (cache, bad_request)
  for_device w r (some d) cache =
      respond w r d (w.template r.profile d.device_type d.device_name) cache

  unfoldable pub get_config : World J D → Request → Cache J D → Cache J D × Response J D
  unfolding device_for secured assembled body_of
  get_config w r cache =
      if not (nonempty r.profile) || ltb 50 (length r.profile)
      then (cache, bad_request)
      else from_cache
          (if is_cacheable r.headers then config_cache_get cache (cache_key r) w.now else none)
          (for_device w r (device_for w r.device) cache) cache
