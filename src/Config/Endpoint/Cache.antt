-- ===== src/Config/Endpoint/Cache.antt =====
-- The cache of responses of `get_config` (app/main.py).
pub mod Secrets
pub mod Access
use device_management.Prelude.Dict
use device_management.Prelude.Dict.{Dict, get-put}
use device_management.Relay.{
  Verdict, denied, granted, Grant, Denial, client_header, relay_auth_from_request,
  verify_relay_credentials,
}
use device_management.Config.{Value, Settings, scrub_secret_values}
use device_management.Config.Secrets.{
  HoldsNoSecret, scrub_secret_values-HoldsNoSecret, apply_llm_proxy_overrides-HoldsNoSecret,
}
use device_management.Config.Devices.{Device}
use device_management.Config.Endpoint.{
  World, Request, Body, Response, bad_request, server_error, access_denied, answer, Cache,
  cache_ttl, is_cacheable, cache_key, live, config_cache_get, config_cache_set, device_for,
  has_access, relay_verdict, secured, assembled, body_of, respond, for_device, from_cache,
  get_config,
}
use device_management.Prelude.Text.{nonempty}
use device_management.Prelude.{
  ℕ, ◌+◌, ◌<◌, ◌≡◌, refl, sym, ap, ◌∙◌, subst, inl, inr, Bool, true, false, Option, none, some, [],
  arith, ltb, if◌then◌else◌, lt→ltb, Bool-cases, Option-cases, none-ne-some, ◌==◌, nat_eq,
  string_eq, pair_eq, ==_refl, list_eq, Str,
}

pub same_cache_key :
    (r other : Request)
    → other.profile ≡ r.profile
    → other.device ≡ r.device
    → cache_key other ≡ cache_key r
unfolding cache_key
same_cache_key r other p d = rw (p, d) refl

module _ {J D : Type 0} where
  pub config_cache_get-config_cache_set :
      (cache : Cache J D) (key : Str) (body : Body J D) (now later : ℕ)
      → later < now + cache_ttl
      → config_cache_get (config_cache_set cache key body now) key later ≡ some body
  unfolding config_cache_get config_cache_set
  config_cache_get-config_cache_set cache key body now later soon =
      ap (live later) entry ∙ rw (lt→ltb later (now + cache_ttl) soon) refl
    where
      entry :
          Dict.get (Dict.put cache key (now + cache_ttl, body)) key ≡ some (now + cache_ttl, body)
      entry = rw (get-put cache key key (now + cache_ttl, body), ==_refl key) refl

module _ {J D : Type 0} (truth_of : J → Bool) where
  -- no entry of the cache holds a secret
  pub record Clean (cache : Cache J D) : Type 0 where
    pub secretless :
        (key : Str) (entry : ℕ × Body J D)
        → Dict.get cache key ≡ some entry
        → HoldsNoSecret truth_of entry.1.config

  pub Clean-config_cache_set :
      (cache : Cache J D) (key : Str) (body : Body J D) (now : ℕ)
      → Clean cache
      → HoldsNoSecret truth_of body.config
      → Clean (config_cache_set cache key body now)
  unfolding config_cache_set
  Clean-config_cache_set cache key body now clean h = record {
    secretless = λ name entry found. elim (Bool-cases (key == name)) [
      | inl e ↦
          subst (λ (x : Option (ℕ × Body J D)). HoldsNoSecret truth_of (config_of x))
            (sym (rw e at (get-put cache key name (now + cache_ttl, body))) ∙ found) h
      | inr e ↦
          clean.secretless name entry
            (sym (rw e at (get-put cache key name (now + cache_ttl, body))) ∙ found)
    ];
  }
    where
      config_of : Option (ℕ × Body J D) → Settings J
      config_of none = []
      config_of (some x) = x.1.config

  pub config_cache_get-HoldsNoSecret :
      (cache : Cache J D) (key : Str) (now : ℕ) (b : Body J D)
      → Clean cache
      → config_cache_get cache key now ≡ some b
      → HoldsNoSecret truth_of b.config
  unfolding config_cache_get
  config_cache_get-HoldsNoSecret cache key now b clean q =
      elim (Option-cases (Dict.get cache key)) [
        | inl n ↦ absurd (none-ne-some (sym (ap (live now) n) ∙ q))
        | inr (x, f) ↦ elim (Bool-cases (ltb now x.0)) [
          | inl e ↦
              subst
                (λ (o : Option (Body J D)).
                  HoldsNoSecret truth_of (elim o [ none ↦ [] | some y ↦ y.config ]))
                (rw e at (sym (ap (live now) f) ∙ q)) (clean.secretless key x f)
          | inr e ↦ absurd (none-ne-some (rw e at (sym (ap (live now) f) ∙ q)))
        ]
      ]
