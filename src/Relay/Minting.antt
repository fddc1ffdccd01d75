-- ===== src/Relay/Minting.antt =====
-- What a mint does to the credentials.
use mathlib.Core.Option
use device_management.Prelude.Dict
use device_management.Prelude.Dict.{Dict, get-put}
use device_management.Relay.{
  Settings, Credential, ClientRow, Store, database, memory, Minted, Grant, granted, find, latest,
  later_of, credential_of, revoke, taken, nonempty, relay_allowed_targets, effective_targets,
  hash_relay_secret, check_credential, verify_relay_credentials, mint_or_rotate_relay_credentials,
}
use device_management.Relay.Verification.{off_target}
use device_management.Relay.Targets.{Core, effective_targets-Core, relay_allowed_targets-config}
use device_management.Prelude.{
  ℕ, ◌+◌, ◌<◌, ◌≡◌, refl, ap, ◌∙◌, ◌≢◌, ◌⊎◌, inl, inr, true, false, not, ◌&&◌, ◌||◌, Option, none,
  some, List, [], ◌∷◌, ◌++◌, map, arith, ltb, leb, Bool-cases, any, ◌==◌, nat_eq, string_eq,
  pair_eq, ==_refl, at_least, list_eq, list_beq, list_beq_iff, Str, lower, strip, elem,
}

revoke-id :
    (now : ℕ) (uuid : Str) (r : ClientRow) → (revoke now uuid r).relay_client_id ≡ r.relay_client_id
unfolding revoke
revoke-id now uuid r = ground arith

revoke-created_at :
    (now : ℕ) (uuid : Str) (r : ClientRow) → (revoke now uuid r).created_at ≡ r.created_at
unfolding revoke
revoke-created_at now uuid r = ground arith

later_of-revoke :
    (now : ℕ) (uuid : Str) (r : ClientRow) (o : Option ClientRow)
    → later_of (revoke now uuid r) (Option.map (revoke now uuid) o) ≡ revoke now uuid (later_of r o)
unfolding revoke
later_of-revoke now uuid r none = refl
later_of-revoke now uuid r (some q) = elim (Bool-cases (ltb r.created_at q.created_at)) [
  | inl e ↦ rw (revoke-created_at now uuid r, revoke-created_at now uuid q, e)
  | inr e ↦ rw (revoke-created_at now uuid r, revoke-created_at now uuid q, e)
]

pub latest-map-revoke :
    (now : ℕ) (uuid i : Str) (rows : List ClientRow)
    → latest i (map (revoke now uuid) rows) ≡ Option.map (revoke now uuid) (latest i rows)
unfolding latest revoke
latest-map-revoke now uuid i [] = refl
latest-map-revoke now uuid i (r ∷ rs) = elim (Bool-cases (r.relay_client_id == i)) [
  | inl e ↦ rw (
    revoke-id now uuid r,
    e,
    latest-map-revoke now uuid i rs,
    later_of-revoke now uuid r (latest i rs),
  )
  | inr e ↦ rw (revoke-id now uuid r, e, latest-map-revoke now uuid i rs)
]

latest-none :
    (i : Str) (r : ClientRow) (rows : List ClientRow)
    → latest i (r ∷ rows) ≡ none
    → ((r.relay_client_id == i) ≡ false) × (latest i rows ≡ none)
unfolding latest
latest-none i r rows h = ground (arith, h)

-- no unique index is in the way of a client id that no row has, once the client's rows are revoked
any-taken-revoke :
    (now : ℕ) (uuid i : Str) (rows : List ClientRow)
    → latest i rows ≡ none
    → any (taken uuid i) (map (revoke now uuid) rows) ≡ false
unfolding revoke taken
any-taken-revoke now uuid i [] h = refl
any-taken-revoke now uuid i (r ∷ rs) h =
    let (off, rest) = latest-none i r rs h in
    ground (arith, off, any-taken-revoke now uuid i rs rest)

latest-absent :
    (now : ℕ) (uuid i : Str) (rows : List ClientRow)
    → latest i rows ≡ none
    → latest i (map (revoke now uuid) rows) ≡ none
latest-absent now uuid i rows h = rw (latest-map-revoke now uuid i rows, h)

pub latest-cons :
    (i : Str) (r : ClientRow) (rs : List ClientRow)
    → ((r.relay_client_id ≡ i) → latest i rs ≡ none → latest i (r ∷ rs) ≡ some r)
      × (r.relay_client_id ≢ i → latest i (r ∷ rs) ≡ latest i rs)
unfolding latest
latest-cons i r rs = (
  λ e n. rw (n, (list_beq_iff r.relay_client_id i).1 e),
  λ ne. ground (arith, ne, list_beq_iff r.relay_client_id i),
)

map-none : (o : Option ClientRow) → Option.map credential_of o ≡ none → o ≡ none
map-none none h = refl
map-none (some r) h = absurd (ground arith)

module _ (sha256 : Str → Str) (cfg : Settings) (now : ℕ) where
  -- the credential that a mint stores
  minted_credential : Str → Str → Str → Str → Credential
  minted_credential id key client_uuid email = record {
    client_uuid = client_uuid;
    email = email;
    relay_key_hash = hash_relay_secret sha256 id key cfg.relay_secret_pepper;
    allowed_targets = relay_allowed_targets cfg;
    expires_at = now + at_least 60 cfg.relay_key_ttl_seconds;
    revoked = false;
  }

  mint-stores :
      (id key uuid email : Str) (store : Store)
      → find id store ≡ none
      → let r = mint_or_rotate_relay_credentials sha256 cfg now id key uuid email store in
        (find id r.0 ≡ some (minted_credential id key uuid email))
        × ((m : Minted) × (r.1 ≡ some m)
            × (m.client_id ≡ id)
            × (m.client_key ≡ key)
            × (m.expires_at ≡ now + at_least 60 cfg.relay_key_ttl_seconds))
  unfolding mint_or_rotate_relay_credentials find minted_credential Dict.get
  mint-stores id key uuid email (database rows) h =
      let absent = map-none (latest id rows) h in
      rw (any-taken-revoke now uuid id rows absent) (
        ap (Option.map credential_of) (
            (latest-cons id _ (map (revoke now uuid) rows)).0 refl
              (latest-absent now uuid id rows absent)),
        (_, refl, refl, refl, refl),
      )
  mint-stores id key uuid email (memory d) h =
      (get-put d id id _ ∙ rw (==_refl id), (_, refl, refl, refl, refl))

  grant_of : Str → Str → Grant
  grant_of uuid email = record {
    client_uuid = uuid;
    email = email;
    allowed_targets = effective_targets (relay_allowed_targets cfg);
    expires_at = now + at_least 60 cfg.relay_key_ttl_seconds;
  }

  check_credential-minted :
      ((s : Str) → nonempty (sha256 s) ≡ true)
      → (id key uuid email target : Str) (later : ℕ)
      → later < now + at_least 60 cfg.relay_key_ttl_seconds
      → (target ≡ []) ⊎ Core target
      → check_credential sha256 cfg later id key target (minted_credential id key uuid email)
        ≡ granted (grant_of uuid email)
  unfolding check_credential minted_credential grant_of hash_relay_secret
  check_credential-minted hex id key uuid email target later soon aim =
      let hash = sha256 (id ++ b':' ∷ key ++ b':' ∷ cfg.relay_secret_pepper) in
      let e = now + at_least 60 cfg.relay_key_ttl_seconds in
      let ts = effective_targets (relay_allowed_targets cfg) in
      let hashed : (not (nonempty hash) || not (hash == hash)) ≡ false = rw (hex _, ==_refl hash) in
      let alive : (not (e == 0) && leb e later) ≡ false = ground (arith, soon) in
      let aimed : (nonempty target && (not (list_beq ts []) && not (elem target ts))) ≡ false =
        elim aim [
          | inl q ↦ rw q
          | inr core ↦ off_target (nonempty target) (list_beq ts []) (elem target ts) (
              effective_targets-Core (relay_allowed_targets cfg) target
                (relay_allowed_targets-config cfg) core)
        ] in
      rw (hashed, alive, aimed)

  -- the verification of a credential that is there
  pub verify_found :
      (id key target : Str) (later : ℕ) (s : Store) (c : Credential)
      → strip id ≡ id
      → nonempty id ≡ true
      → nonempty (strip key) ≡ true
      → find id s ≡ some c
      → verify_relay_credentials sha256 cfg later id key target s
        ≡ check_credential sha256 cfg later id (strip key) (lower (strip target)) c
  unfolding verify_relay_credentials
  verify_found id key target later s c sid nid nkey f =
      rw (ap nonempty sid ∙ nid, nkey, ap (λ i. find i s) sid ∙ f)
        (ap (λ i. check_credential sha256 cfg later i (strip key) (lower (strip target)) c) sid)

  -- A credential that was just minted under a client id that no credential has is accepted, until
  -- it expires, for every target that every device holds and where no target is asked for. The
  -- hashes are taken to be no empty texts.
  pub mint_or_rotate-verify :
      ((s : Str) → nonempty (sha256 s) ≡ true)
      → (id key uuid email : Str) (store : Store) (target : Str) (later : ℕ) → strip id ≡ id
      → nonempty id ≡ true
      → strip key ≡ key
      → nonempty key ≡ true
      → find id store ≡ none
      → later < now + at_least 60 cfg.relay_key_ttl_seconds
      → (lower (strip target) ≡ []) ⊎ Core (lower (strip target))
      → let r = mint_or_rotate_relay_credentials sha256 cfg now id key uuid email store in
        (m : Minted) × (r.1 ≡ some m)
        × ((g : Grant) × (verify_relay_credentials sha256 cfg later m.client_id m.client_key target
                r.0
              ≡ granted g)
            × (g.client_uuid ≡ uuid)
            × (g.email ≡ email))
  unfolding grant_of
  mint_or_rotate-verify hex id key uuid email store target later sid nid skey nkey fresh soon aim =
      let (stored, (m, made, mid, mkey, mexp)) = mint-stores id key uuid email store fresh in
      (m, made, (grant_of uuid email, rw (mid, mkey) (accepted _ stored), refl, refl))
    where
      accepted :
          (s : Store)
          → find id s ≡ some (minted_credential id key uuid email)
          → verify_relay_credentials sha256 cfg later id key target s
            ≡ granted (grant_of uuid email)
      accepted s stored =
          verify_found id key target later s (minted_credential id key uuid email) sid nid
            (ap nonempty skey ∙ nkey) stored
          ∙ ap
              (λ k.
                check_credential sha256 cfg later id k (lower (strip target))
                  (minted_credential id key uuid email))
              skey
          ∙ check_credential-minted hex id key uuid email (lower (strip target)) later soon aim
