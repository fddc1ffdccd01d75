-- ===== src/Config/Endpoint/Cache/Secrets.antt =====
-- What `get_config` (app/main.py) and its cache of responses keep of secrets.
use device_management.Prelude.Dict.{Dict}
use device_management.Relay.{
  Verdict, denied, granted, Grant, Denial, client_header, relay_auth_from_request,
  verify_relay_credentials,
}
use device_management.Config.{Value, Settings, scrub_secret_values}
use device_management.Config.Secrets.{
  HoldsNoSecret, scrub_secret_values-HoldsNoSecret, apply_llm_proxy_overrides-HoldsNoSecret,
}
use device_management.Config.Devices.{Device}
use device_management.Config.Endpoint.{
  World, Request, Body, Response, bad_request, server_error, access_denied, answer, Cache,
  is_cacheable, cache_key, config_cache_get, config_cache_set, device_for, has_access,
  relay_verdict, secured, assembled, body_of, respond, for_device, from_cache, get_config,
}
use device_management.Prelude.Text.{nonempty}
use device_management.Prelude.{
  ◌≡◌, refl, ap, ◌≢◌, inl, inr, Bool, true, false, not, ◌||◌, Option, none, some, arith, ltb,
  if◌then◌else◌, Bool-cases, none-ne-some, false-ne-true, length, nat_eq, string_eq, pair_eq,
  list_eq, Str, strip,
}
use device_management.Config.Endpoint.Cache.{
  Clean, Clean-config_cache_set, config_cache_get-HoldsNoSecret,
}

module _ {J D : Type 0} (str_of : Value J → Str) (truth_of : J → Bool) (notice : Str)
    (sha256 : Str → Str) where
  -- what a response to a request with this verdict has to keep
  abbrev Secretless : Response J D → Verdict → Type 0
  Secretless bad_request v = Unit
  Secretless server_error v = Unit
  Secretless (access_denied name a) v = Unit
  Secretless (answer hit cacheable body) (granted g) = Unit
  Secretless (answer hit cacheable body) (denied d) = HoldsNoSecret truth_of body.config

  abbrev Keeps : Verdict → Cache J D × Response J D → Type 0
  Keeps v out = Clean truth_of out.0 × Secretless out.1 v

  secured-HoldsNoSecret :
      (w : World J D) (d : Denial) (config : Settings J)
      → w.service.relay_require_key_for_secrets ≡ true
      → HoldsNoSecret truth_of (secured str_of truth_of notice sha256 w (denied d) config)
  unfolding secured
  secured-HoldsNoSecret w d config required =
      apply_llm_proxy_overrides-HoldsNoSecret str_of truth_of w.service
        (if w.service.relay_require_key_for_secrets
          then scrub_secret_values truth_of notice config
          else config)
        (rw required (scrub_secret_values-HoldsNoSecret truth_of notice config))

  -- a request without the header of a client is never granted anything
  is_cacheable-denied :
      (w : World J D) (headers : Dict Str Str) (g : Grant)
      → is_cacheable headers ≡ true
      → relay_verdict str_of truth_of notice sha256 w headers ≢ granted g
  unfolding is_cacheable relay_auth_from_request verify_relay_credentials client_header
  is_cacheable-denied w headers g c h = elim (Bool-cases w.relay.relay_enabled) [
    | inr e ↦ refused (rw e at h)
    | inl e ↦ refused (rw (unnamed, e) at h)
  ]
    where
      refused : {d : Denial} {v : Grant} → denied d ≢ granted v
      refused q =
          false-ne-true (ap (λ (v : Verdict). elim v [ denied d ↦ false | granted x ↦ true ]) q)

      unnamed : nonempty (strip (client_header headers)) ≡ false
      unnamed = ground (arith, c)

  respond-Keeps :
      (w : World J D) (r : Request) (d : Device)
      (sections : Option (Settings J × Option (Settings J))) (cache : Cache J D)
      → w.service.relay_require_key_for_secrets ≡ true
      → Clean truth_of cache
      → Keeps
          (relay_verdict str_of truth_of notice sha256 w r.headers)
          (respond str_of truth_of notice sha256 w r d sections cache)
  unfolding body_of
  respond-Keeps w r d none cache required clean = (clean, tt)
  respond-Keeps w r d (some sections) cache required clean =
      elim (Bool-cases (has_access w r.headers d.plugin_id)) [
        | inr e ↦ rw e (clean, tt)
        | inl e ↦ rw e (
            with_verdict (relay_verdict str_of truth_of notice sha256 w r.headers)
              (is_cacheable r.headers) (λ g c. is_cacheable-denied w r.headers g c))
      ]
    where
      body : Verdict → Body J D
      body v = body_of str_of truth_of notice sha256 w r d (
          secured str_of truth_of notice sha256 w v
            (assembled str_of truth_of notice sha256 w d sections))

      with_verdict :
          (v : Verdict) (c : Bool)
          → ((g : Grant) → c ≡ true → v ≢ granted g)
          → Keeps v (
            if c then config_cache_set cache (cache_key r) (body v) w.now else cache,
            answer false c (body v),
          )
      with_verdict (denied x) true n =
          let kept =
            secured-HoldsNoSecret w x (assembled str_of truth_of notice sha256 w d sections)
              required in
          (
            Clean-config_cache_set truth_of cache (cache_key r) (body (denied x)) w.now clean kept,
            kept,
          )
      with_verdict (denied x) false n = (
        clean,
        secured-HoldsNoSecret w x (assembled str_of truth_of notice sha256 w d sections) required,
      )
      with_verdict (granted g) true n = absurd (n g refl refl)
      with_verdict (granted g) false n = (clean, tt)

  get_config-Keeps :
      (w : World J D) (r : Request) (cache : Cache J D)
      → w.service.relay_require_key_for_secrets ≡ true
      → Clean truth_of cache
      → Keeps
          (relay_verdict str_of truth_of notice sha256 w r.headers)
          (get_config str_of truth_of notice sha256 w r cache)
  unfolding get_config config_cache_get
  get_config-Keeps w r cache required clean =
      elim (Bool-cases (not (nonempty r.profile) || ltb 50 (length r.profile))) [
        | inl e ↦ rw e (clean, tt)
        | inr e ↦ rw e (
            with_cached
              (if is_cacheable r.headers then config_cache_get cache (cache_key r) w.now else none)
              refl)
      ]
    where
      v : Verdict
      v = relay_verdict str_of truth_of notice sha256 w r.headers

      miss : (o : Option Device) → Keeps v (for_device str_of truth_of notice sha256 w r o cache)
      miss none = (clean, tt)
      miss (some d) =
          respond-Keeps w r d (w.template r.profile d.device_type d.device_name) cache required
            clean

      secretless :
          (b : Body J D) (u : Verdict)
          → HoldsNoSecret truth_of b.config
          → Secretless (answer true true b) u
      secretless b (granted g) h = tt
      secretless b (denied d) h = h

      stored :
          (b : Body J D)
          → (if is_cacheable r.headers then config_cache_get cache (cache_key r) w.now else none)
            ≡ some b
          → HoldsNoSecret truth_of b.config
      stored b q = elim (Bool-cases (is_cacheable r.headers)) [
        | inl e ↦
            config_cache_get-HoldsNoSecret truth_of cache (cache_key r) w.now b clean (rw e at q)
        | inr e ↦ absurd (none-ne-some (rw e at q))
      ]

      with_cached :
          (o : Option (Body J D))
          → (if is_cacheable r.headers then config_cache_get cache (cache_key r) w.now else none)
            ≡ o
          → Keeps v (
              from_cache o
                (for_device str_of truth_of notice sha256 w r (device_for w r.device) cache)
                cache)
      with_cached none q = miss (device_for w r.device)
      with_cached (some b) q = (clean, secretless b v (stored b q))

  -- Where secrets need a key (`relay_require_key_for_secrets`) and no cached response holds a secret,
  -- no cached response holds one after any request: what an accepted client gets is not cached.
  pub get_config-Clean :
      (w : World J D) (r : Request) (cache : Cache J D)
      → w.service.relay_require_key_for_secrets ≡ true
      → Clean truth_of cache
      → Clean truth_of (get_config str_of truth_of notice sha256 w r cache).0
  get_config-Clean w r cache required clean = (get_config-Keeps w r cache required clean).0

  -- Where secrets need a key and no cached response holds a secret, a request that relay
  -- authentication denies is answered, from the cache or not, without a value under any secret key.
  pub get_config-withholds_secrets :
      (w : World J D) (r : Request) (cache after : Cache J D) (hit cacheable : Bool)
      (body : Body J D) (d : Denial)
      → w.service.relay_require_key_for_secrets ≡ true
      → Clean truth_of cache
      → relay_verdict str_of truth_of notice sha256 w r.headers ≡ denied d
      → get_config str_of truth_of notice sha256 w r cache ≡ (after, answer hit cacheable body)
      → HoldsNoSecret truth_of body.config
  get_config-withholds_secrets w r cache after hit cacheable body d required clean e h =
      rw (e, h) at (get_config-Keeps w r cache required clean).1
