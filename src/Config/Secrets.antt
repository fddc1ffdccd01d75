-- ===== src/Config/Secrets.antt =====
-- A configuration whose secrets were removed stays without them.
use device_management.Prelude.Dict
use device_management.Prelude.Dict.{Dict, get-put}
use device_management.Prelude.Text.{nonempty}
use device_management.Config.{
  Value, text, Settings, Service, truth, secret_config_keys, held, holds_secret, scrub_keys,
  scrub_secret_values, forces_llm_endpoint, with_embedder, proxied, direct,
  apply_llm_proxy_overrides,
}
use device_management.Prelude.{
  ◌≡◌, refl, sym, ap, ◌∙◌, ◌⊎◌, inl, inr, Bool, true, false, ◌&&◌, none, List, [], ◌∷◌,
  if◌then◌else◌, Bool-cases, is_some, false-ne-true, any, ◌==◌, nat_eq, string_eq, pair_eq, list_eq,
  list_beq_iff, Str, codes, elem,
}

module _ {J : Type 0} (truth_of : J → Bool) where
  -- no key of a secret has a value
  abbrev pub HoldsNoSecret : Settings J → Type 0
  HoldsNoSecret config =
      (key : Str) → elem key secret_config_keys ≡ true → holds_secret truth_of config key ≡ false

  holds_secret-put :
      (config : Settings J) (k key : Str) (v : Value J)
      → holds_secret truth_of (Dict.put config k v) key
        ≡ (if k == key then truth truth_of v else holds_secret truth_of config key)
  holds_secret-put config k key v = elim (Bool-cases (k == key)) [
    | inl e ↦ ap (held truth_of) (get-put config k key v) ∙ rw e
    | inr e ↦ ap (held truth_of) (get-put config k key v) ∙ rw e
  ]

  pub HoldsNoSecret-put :
      (config : Settings J) (k : Str) (v : Value J)
      → elem k secret_config_keys ≡ false
      → HoldsNoSecret config
      → HoldsNoSecret (Dict.put config k v)
  HoldsNoSecret-put config k v e h key m = elim (Bool-cases (k == key)) [
    | inl q ↦
        absurd (
          false-ne-true
            (sym e ∙ ap (λ s. elem s secret_config_keys) ((list_beq_iff k key).0 q) ∙ m))
    | inr q ↦ holds_secret-put config k key v ∙ rw q (h key m)
  ]

  pub HoldsNoSecret-put_empty :
      (config : Settings J) (k : Str)
      → HoldsNoSecret config
      → HoldsNoSecret (Dict.put config k (text []))
  HoldsNoSecret-put_empty config k h key m = elim (Bool-cases (k == key)) [
    | inl q ↦ holds_secret-put config k key (text []) ∙ rw q
    | inr q ↦ holds_secret-put config k key (text []) ∙ rw q (h key m)
  ]

  -- a key that is scrubbed, or that held nothing before, holds nothing afterwards
  scrub_keys-holds :
      (keys : List Str) (config : Settings J) (key : Str)
      → (elem key keys ≡ true) ⊎ (holds_secret truth_of config key ≡ false)
      → holds_secret truth_of (scrub_keys truth_of keys config) key ≡ false
  unfolding scrub_keys
  scrub_keys-holds [] config key (inl e) = absurd (false-ne-true e)
  scrub_keys-holds [] config key (inr h) = h
  scrub_keys-holds (k ∷ keys) config key h = elim (Bool-cases (holds_secret truth_of config k)) [
    | inl q ↦ rw q (scrub_keys-holds keys (Dict.put config k (text [])) key (emptied h))
    | inr q ↦ rw q (scrub_keys-holds keys config key (left q h))
  ]
    where
      emptied :
          (elem key (k ∷ keys) ≡ true) ⊎ (holds_secret truth_of config key ≡ false)
          → (elem key keys ≡ true)
            ⊎ (holds_secret truth_of (Dict.put config k (text [])) key ≡ false)
      emptied o = elim (Bool-cases (k == key)) [
        | inl e ↦ inr (holds_secret-put config k key (text []) ∙ rw e)
        | inr e ↦ elim o [
          | inl m ↦ inl (rw e at m)
          | inr n ↦ inr (holds_secret-put config k key (text []) ∙ rw e n)
        ]
      ]

      left :
          holds_secret truth_of config k ≡ false
          → (elem key (k ∷ keys) ≡ true) ⊎ (holds_secret truth_of config key ≡ false)
          → (elem key keys ≡ true) ⊎ (holds_secret truth_of config key ≡ false)
      left q (inr n) = inr n
      left q (inl m) = elim (Bool-cases (k == key)) [
        | inl e ↦ inr (ap (holds_secret truth_of config) (sym ((list_beq_iff k key).0 e)) ∙ q)
        | inr e ↦ inl (rw e at m)
      ]

  pub scrub_secret_values-HoldsNoSecret :
      (notice : Str) (config : Settings J)
      → HoldsNoSecret (scrub_secret_values truth_of notice config)
  unfolding scrub_secret_values
  scrub_secret_values-HoldsNoSecret notice config =
      noticed _ (any (holds_secret truth_of config) secret_config_keys)
        (aliased (is_some (Dict.get scrubbed (codes "authHeaderKey"))))
    where
      scrubbed : Settings J
      scrubbed = scrub_keys truth_of secret_config_keys config

      aliased :
          (b : Bool)
          → HoldsNoSecret
              (if b then Dict.put scrubbed (codes "authHeaderKey") (text []) else scrubbed)
      aliased true key m =
          HoldsNoSecret-put_empty scrubbed (codes "authHeaderKey")
            (λ name n. scrub_keys-holds secret_config_keys config name (inl n)) key m
      aliased false key m = scrub_keys-holds secret_config_keys config key (inl m)

      noticed :
          (c : Settings J) (b : Bool)
          → HoldsNoSecret c
          → HoldsNoSecret (if b then Dict.put c (codes "_auth_notice") (text notice) else c)
      noticed c true h = HoldsNoSecret-put c (codes "_auth_notice") (text notice) refl h
      noticed c false h = h

module _ {J : Type 0} (str_of : Value J → Str) (truth_of : J → Bool) where
  -- the overrides for language models add no secret where no token was minted
  pub apply_llm_proxy_overrides-HoldsNoSecret :
      (s : Service) (config : Settings J)
      → HoldsNoSecret truth_of config
      → HoldsNoSecret truth_of (apply_llm_proxy_overrides str_of truth_of s none config)
  unfolding apply_llm_proxy_overrides
  apply_llm_proxy_overrides-HoldsNoSecret s config h = embedded _ (
      chosen (forces_llm_endpoint s.force_llm_endpoint_override && nonempty s.public_llm_proxy_url))
    where
      put :
          (c : Settings J) (k : Str) (v : Value J)
          → elem k secret_config_keys ≡ false
          → HoldsNoSecret truth_of c
          → HoldsNoSecret truth_of (Dict.put c k v)
      put c k v e g = HoldsNoSecret-put truth_of c k v e g

      chosen :
          (b : Bool)
          → HoldsNoSecret truth_of (
              if b
              then proxied str_of truth_of s.public_llm_proxy_url none config
              else direct str_of truth_of s config)
      chosen true = HoldsNoSecret-put_empty truth_of _ (codes "llmToken") (
          HoldsNoSecret-put_empty truth_of _ (codes "llm_api_tokens") (
            put _ (codes "relayAssistantBaseUrl") (text s.public_llm_proxy_url) refl (
              put _ (codes "llm_base_urls") (text s.public_llm_proxy_url) refl
                (put _ (codes "llmEndpoint") (text s.public_llm_proxy_url) refl h))))
      chosen false = put _ (codes "llmEndpoint") _ refl h

      embedded :
          (c : Settings J)
          → HoldsNoSecret truth_of c
          → HoldsNoSecret truth_of (with_embedder str_of truth_of s c)
      embedded c g =
          put _ (codes "embdToken") _ refl
            (put _ (codes "embdUrl") _ refl (put _ (codes "embdModel") _ refl g))
