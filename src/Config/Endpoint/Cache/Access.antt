-- ===== src/Config/Endpoint/Cache/Access.antt =====
-- The cache of responses of `get_config` (app/main.py) and the access to plugins.
use device_management.Config.{Value, Settings}
use device_management.Config.Devices.{Device}
use device_management.Config.Endpoint.{
  World, Request, Body, Response, answer, Cache, cache_ttl, is_cacheable, cache_key,
  config_cache_set, device_for, has_access, respond, for_device, from_cache, get_config,
}
use device_management.Prelude.Text.{nonempty}
use device_management.Prelude.{
  ◌+◌, ◌<◌, ◌≡◌, refl, sym, ap, ◌∙◌, inl, inr, Bool, true, false, not, ◌||◌, Option, none, some,
  ltb, if◌then◌else◌, Bool-cases, none-ne-some, length, nat_eq, string_eq, pair_eq, list_eq, Str,
}
use device_management.Config.Endpoint.Cache.{same_cache_key, config_cache_get-config_cache_set}

module _ {J D : Type 0} (str_of : Value J → Str) (truth_of : J → Bool) (notice : Str)
    (sha256 : Str → Str) where
  -- the body of an answer that was stored
  abbrev fresh_body : Response J D → Option (Body J D)
  fresh_body (answer false true body) = some body
  fresh_body r = none

  abbrev Gives : Cache J D × Response J D → Cache J D → Body J D → Type 0
  Gives out after body = out ≡ (after, answer false true body)

  respond-stores :
      (w : World J D) (r : Request) (d : Device)
      (sections : Option (Settings J × Option (Settings J))) (cache after : Cache J D)
      (body : Body J D)
      → respond str_of truth_of notice sha256 w r d sections cache ≡ (after, answer false true body)
      → after ≡ config_cache_set cache (cache_key r) body w.now
  respond-stores w r d none cache after body h =
      absurd (none-ne-some (ap (λ (out : Cache J D × Response J D). fresh_body out.1) h))
  respond-stores w r d (some sections) cache after body h =
      elim (Bool-cases (has_access w r.headers d.plugin_id)) [
        | inr e ↦
            absurd
              (none-ne-some (ap (λ (out : Cache J D × Response J D). fresh_body out.1) (rw e at h)))
        | inl e ↦ stored (is_cacheable r.headers) _ (rw e at h)
      ]
    where
      stored :
          (c : Bool) (b : Body J D)
          → Gives
              (if c then config_cache_set cache (cache_key r) b w.now else cache, answer false c b)
              after
              body
          → after ≡ config_cache_set cache (cache_key r) body w.now
      stored true b q =
          sym (ap (λ (out : Cache J D × Response J D). out.0) q)
          ∙ ap
              (λ (o : Option (Body J D)). elim o [
                | none ↦ cache
                | some x ↦ config_cache_set cache (cache_key r) x w.now
              ])
              (ap (λ (out : Cache J D × Response J D). fresh_body out.1) q)
      stored false b q =
          absurd (none-ne-some (ap (λ (out : Cache J D × Response J D). fresh_body out.1) q))

  -- an answer that may be cached and is not from the cache was stored
  get_config-stores :
      (w : World J D) (r : Request) (cache after : Cache J D) (body : Body J D)
      → get_config str_of truth_of notice sha256 w r cache ≡ (after, answer false true body)
      → ((not (nonempty r.profile) || ltb 50 (length r.profile)) ≡ false)
        × (after ≡ config_cache_set cache (cache_key r) body w.now)
  unfolding get_config
  get_config-stores w r cache after body h =
      elim (Bool-cases (not (nonempty r.profile) || ltb 50 (length r.profile))) [
        | inl e ↦ absurd (fails (rw (e, get_config) at h) refl)
        | inr e ↦ (e, with_cached _ (rw (e, get_config) at h))
      ]
    where
      fails : {o : Response J D} → Gives (cache, o) after body → fresh_body o ≡ none → ⊥
      fails q n = none-ne-some (sym n ∙ ap (λ (out : Cache J D × Response J D). fresh_body out.1) q)

      miss :
          (o : Option Device)
          → for_device str_of truth_of notice sha256 w r o cache ≡ (after, answer false true body)
          → after ≡ config_cache_set cache (cache_key r) body w.now
      miss none q = absurd (fails q refl)
      miss (some d) q =
          respond-stores w r d (w.template r.profile d.device_type d.device_name) cache after body q

      with_cached :
          (o : Option (Body J D))
          → from_cache o
              (for_device str_of truth_of notice sha256 w r (device_for w r.device) cache)
              cache
            ≡ (after, answer false true body)
          → after ≡ config_cache_set cache (cache_key r) body w.now
      with_cached none q = miss (device_for w r.device) q
      with_cached (some b) q = absurd (fails q refl)

  -- An answer that the cache may keep is given for the next minute to every cacheable request for
  -- the same profile and device, whatever access to the plugin that request has: a group of Keycloak
  -- is read from the header Authorization, which does not keep a request from the cache.
  pub get_config-ignores_access :
      (w later : World J D) (r other : Request) (cache after : Cache J D) (body : Body J D)
      → get_config str_of truth_of notice sha256 w r cache ≡ (after, answer false true body)
      → later.now < w.now + cache_ttl
      → is_cacheable other.headers ≡ true
      → other.profile ≡ r.profile
      → other.device ≡ r.device
      → get_config str_of truth_of notice sha256 later other after ≡ (after, answer true true body)
  unfolding get_config
  get_config-ignores_access w later r other cache after body h soon c p d =
      let (fits, stored) = get_config-stores w r cache after body h in
      rw
        (
          same_cache_key r other p d,
          stored,
          config_cache_get-config_cache_set cache (cache_key r) body w.now later.now soon,
          c,
          p,
          fits,
        )
        refl
