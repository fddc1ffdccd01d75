-- ===== src/Relay/Verification.antt =====
-- What a verification that grants has established.
use device_management.Prelude.Dict.{Dict}
use device_management.Relay.{
  Settings, Credential, Store, Grant, Denial, key_revoked, invalid_key, key_expired,
  target_not_allowed, denied, granted, find, normalized, nonempty, effective_targets,
  hash_relay_secret, check_credential, verify_relay_credentials, relay_auth_from_request, header,
  client_header, key_header,
}
use device_management.Relay.Targets.{Core, effective_targets-Core}
use device_management.Prelude.{
  ℕ, ◌<◌, ◌≡◌, refl, sym, ap, subst, ◌⊎◌, inl, inr, Bool, true, false, not, ◌&&◌, ◌||◌, some, List,
  [], ◌∷◌, arith, leb, if◌then◌else◌, Bool-cases, Option-cases, ◌==◌, nat_eq, string_eq, pair_eq,
  list_eq, list_beq, list_beq_iff, Str, codes, lower, strip, elem,
}

four_checks :
    (p q r s : Denial) (a b c d : Bool) {g g' : Grant}
    → (if a
        then denied p
        else if b
        then denied q
        else if c
        then denied r
        else if d
        then denied s
        else granted g)
      ≡ granted g'
    → (a ≡ false) × ((b ≡ false) × ((c ≡ false) × ((d ≡ false) × (g ≡ g'))))
four_checks p q r s true b c d h = absurd (ground arith)
four_checks p q r s false true c d h = absurd (ground arith)
four_checks p q r s false false true d h = absurd (ground arith)
four_checks p q r s false false false true h = absurd (ground arith)
four_checks p q r s false false false false h = (refl, (refl, (refl, (refl, cc))))

pub off_target : (a b c : Bool) → c ≡ true → (a && (not b && not c)) ≡ false
off_target a b c h = ground (arith, h)

refused : {d : Denial} {g : Grant} → denied d ≡ granted g → ⊥
refused h = absurd (ground arith)

module _ (sha256 : Str → Str) (cfg : Settings) (now : ℕ) where
  -- A credential that opens the way to a target: not revoked, with the hash of the key that the
  -- device sent, not expired, and for a target that is among its effective ones, if it has any and
  -- the caller asks for one.
  pub record Opens (id key target : Str) (c : Credential) (g : Grant) : Type 0 where
    pub live : c.revoked ≡ false
    pub hashed : c.relay_key_hash ≡ hash_relay_secret sha256 id key cfg.relay_secret_pepper
    pub unexpired : (c.expires_at ≡ 0) ⊎ (now < c.expires_at)
    pub aimed :
        (target ≡ [])
        ⊎ ((effective_targets c.allowed_targets ≡ []) ⊎ (elem target g.allowed_targets ≡ true))
    pub same_client : g.client_uuid ≡ c.client_uuid
    pub same_email : g.email ≡ c.email

  check_credential-Opens :
      (id key target : Str) (c : Credential) (g : Grant)
      → check_credential sha256 cfg now id key target c ≡ granted g
      → Opens id key target c g
  unfolding check_credential
  check_credential-Opens id key target c g h =
      let provided = hash_relay_secret sha256 id key cfg.relay_secret_pepper in
      let targets = effective_targets c.allowed_targets in
      let (live, (hashed, (unexpired, (aimed, e)))) =
        four_checks key_revoked invalid_key key_expired (target_not_allowed target) c.revoked
          (not (nonempty c.relay_key_hash) || not (c.relay_key_hash == provided))
          (not (c.expires_at == 0) && leb c.expires_at now)
          (nonempty target && (not (list_beq targets []) && not (elem target targets))) h in
      record {
        live = live;
        hashed = (list_beq_iff c.relay_key_hash provided).0 (ground (arith, hashed));
        unexpired = ground (arith, unexpired);
        aimed = aim target targets aimed (ap (λ (x : Grant). x.allowed_targets) e);
        same_client = sym (ap (λ (x : Grant). x.client_uuid) e);
        same_email = sym (ap (λ (x : Grant). x.email) e);
      }
    where
      aim :
          (t : Str) (ts : List Str)
          → (nonempty t && (not (list_beq ts []) && not (elem t ts))) ≡ false
          → ts ≡ g.allowed_targets
          → (t ≡ []) ⊎ ((ts ≡ []) ⊎ (elem t g.allowed_targets ≡ true))
      aim [] ts h q = inl refl
      aim (x ∷ t) [] h q = inr (inl refl)
      aim (x ∷ t) (u ∷ us) h q =
          inr (inr (subst (λ vs. elem (x ∷ t) vs ≡ true) q (ground (arith, h))))

  verify_relay_credentials-Opens :
      (id key target : Str) (store : Store) (g : Grant)
      → verify_relay_credentials sha256 cfg now id key target store ≡ granted g
      → (c : Credential) × (find (strip id) store ≡ some c)
        × Opens (strip id) (strip key) (lower (strip target)) c g
  unfolding verify_relay_credentials
  verify_relay_credentials-Opens id key target store g h =
      elim (Bool-cases (not (nonempty (strip id)) || not (nonempty (strip key)))) [
        | inl e ↦ absurd (refused (rw e at h))
        | inr e ↦ elim (Option-cases (find (strip id) store)) [
          | inl n ↦ absurd (refused (rw n at (rw e at h)))
          | inr (c, f) ↦ (
            c,
            f,
            check_credential-Opens (strip id) (strip key) (lower (strip target)) c g
                (rw f at (rw e at h)),
          )
        ]
      ]

  -- A request is granted only where relay authentication is enabled, and with a credential that is
  -- stored under the client id that the request names and opens the way to the target.
  pub relay_auth_from_request_sound :
      (headers : Dict Str Str) (target : Str) (proxied : Bool) (store : Store) (g : Grant)
      → relay_auth_from_request sha256 cfg now headers target proxied store ≡ granted g
      → (cfg.relay_enabled ≡ true)
        × ((c : Credential) × (find (strip (client_header headers)) store ≡ some c)
            × Opens
                (strip (client_header headers))
                (strip (key_header headers))
                (lower (strip target))
                c
                g)
  unfolding relay_auth_from_request
  relay_auth_from_request_sound headers target proxied store g h =
      let expected = strip cfg.relay_proxy_shared_token in
      let provided = strip (header headers (codes "x-relay-proxy-token")) in
      elim (Bool-cases cfg.relay_enabled) [
        | inr e ↦ absurd (refused (rw e at h))
        | inl e ↦ elim (Bool-cases (proxied && (nonempty expected && not (expected == provided)))) [
          | inl b ↦ absurd (refused (rw b at (rw e at h)))
          | inr b ↦ (
            e,
            verify_relay_credentials-Opens (client_header headers) (key_header headers) target store
                g (rw b at (rw e at h)),
          )
        ]
      ]

  -- Who holds `config` is let through to `config`, `telemetry` and `llm` exactly as if no target
  -- were asked for, however old the credential.
  pub verify_relay_credentials-config_holder :
      (id key target : Str) (store : Store) (c : Credential)
      → find (strip id) store ≡ some c
      → elem (codes "config") (normalized c.allowed_targets) ≡ true
      → Core (lower (strip target))
      → verify_relay_credentials sha256 cfg now id key target store
        ≡ verify_relay_credentials sha256 cfg now id key [] store
  unfolding verify_relay_credentials check_credential
  verify_relay_credentials-config_holder id key target store c f h core =
      let t = lower (strip target) in
      let ts = effective_targets c.allowed_targets in
      rw (
        f,
        off_target (nonempty t) (list_beq ts []) (elem t ts)
            (effective_targets-Core c.allowed_targets t h core),
      )
