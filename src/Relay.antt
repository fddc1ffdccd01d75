-- ===== src/Relay.antt =====
-- The relay credentials of an enrolled device: `_relay_allowed_targets`, `_hash_relay_secret`,
-- `_mint_or_rotate_relay_credentials`, `_verify_relay_credentials` and `_relay_auth_from_request`
-- of app/main.py, and `hash_relay_secret` of app/services/crypto.py. SHA-256 is a parameter.
pub mod Targets
pub mod Verification
pub mod Minting
pub mod Rotation
use mathlib.Core.Option
use device_management.Prelude.Text.{split_on}
use device_management.Prelude.Dict
use device_management.Prelude.Dict.{Dict}
use device_management.Prelude.{
  ℕ, ◌+◌, ◌-◌, refl, Bool, true, false, not, ◌&&◌, ◌||◌, Option, none, some, List, [], ◌∷◌, ◌++◌,
  map, arith, ltb, leb, if◌then◌else◌, or_else, is_some, any, select, ◌==◌, nat_eq, string_eq,
  pair_eq, ℤ, at_least, list_eq, list_beq, Str, codes, lower, strip, str_ltb, elem, first_text,
}

pub record Settings : Type 0 where
  pub relay_enabled : Bool
  pub relay_allowed_targets_csv : Str
  pub relay_secret_pepper : Str
  pub relay_key_ttl_seconds : ℤ
  pub relay_proxy_shared_token : Str

-- A credential as the verification reads it; `expires_at` 0 is none.
pub record Credential : Type 0 where
  pub client_uuid : Str
  pub email : Str
  pub relay_key_hash : Str
  pub allowed_targets : List Str
  pub expires_at : ℕ
  pub revoked : Bool

-- A row of `relay_clients`.
pub record ClientRow : Type 0 where
  pub created_at : ℕ
  pub client_uuid : Str
  pub email : Str
  pub relay_client_id : Str
  pub relay_key_hash : Str
  pub allowed_targets : List Str
  pub expires_at : Option ℕ
  pub revoked_at : Option ℕ

-- The table where psycopg2 and a database URL are there, and else `_RELAY_MEMORY_STORE`.
pub data Store : Type 0 where
  database : List ClientRow → Store
  memory : Dict Str Credential → Store

-- `sorted(set(…))`
abbrev pub insert_sorted : Str → List Str → List Str
insert_sorted t [] = t ∷ []
insert_sorted t (u ∷ us) =
    let rest = insert_sorted t us in
    if t == u then u ∷ us else if str_ltb t u then t ∷ u ∷ us else u ∷ rest

abbrev pub sorted_set : List Str → List Str
sorted_set [] = []
sorted_set (t ∷ ts) = insert_sorted t (sorted_set ts)

-- `if t not in ts: ts.append(t)`
abbrev pub ensure : Str → List Str → List Str
ensure t ts = if elem t ts then ts else ts ++ t ∷ []

abbrev pub nonempty : Str → Bool
nonempty [] = false
nonempty (c ∷ s) = true

-- `[t.strip().lower() for t in ts if t.strip()]`
abbrev pub normalized : List Str → List Str
normalized ts = map (λ (t : Str). lower (strip t)) (select (λ (t : Str). nonempty (strip t)) ts)

abbrev pub named_targets : Settings → List Str
named_targets cfg = elim (normalized (split_on b',' (strip cfg.relay_allowed_targets_csv))) [
  | [] ↦ codes "keycloak" ∷ codes "config" ∷ codes "telemetry" ∷ []
  | t ∷ ts ↦ t ∷ ts
]

unfoldable pub relay_allowed_targets : Settings → List Str
relay_allowed_targets cfg = sorted_set (
    ensure (codes "llm") (ensure (codes "telemetry") (ensure (codes "config") (named_targets cfg))))

module _ (sha256 : Str → Str) where
  unfoldable pub hash_relay_secret : Str → Str → Str → Str
  hash_relay_secret relay_client_id relay_key pepper =
      sha256 (relay_client_id ++ b':' ∷ relay_key ++ b':' ∷ pepper)

-- `UPDATE … SET revoked_at = now() WHERE client_uuid = … AND revoked_at IS NULL`
unfoldable pub revoke : ℕ → Str → ClientRow → ClientRow
revoke now client_uuid r =
    if r.client_uuid == client_uuid && not (is_some r.revoked_at)
    then record r { revoked_at = some now }
    else r

-- The unique indexes on the rows that are not revoked.
unfoldable pub taken : Str → Str → ClientRow → Bool
taken client_uuid relay_client_id r =
    not (is_some r.revoked_at)
    && (r.client_uuid == client_uuid || r.relay_client_id == relay_client_id)

pub record Minted : Type 0 where
  pub client_id : Str
  pub client_key : Str
  pub allowed_targets : List Str
  pub expires_at : ℕ
  pub ttl_seconds : ℕ

module _ (sha256 : Str → Str) where
  -- `relay_client_id` and `relay_client_key` are the texts that the code draws at random; `none` is
  -- the exception of a unique index.
  unfoldable pub mint_or_rotate_relay_credentials :
      Settings → ℕ → Str → Str → Str → Str → Store → Store × Option Minted
  unfolding hash_relay_secret revoke taken
  mint_or_rotate_relay_credentials cfg now relay_client_id relay_client_key client_uuid email
        store =
      let relay_key_hash =
        hash_relay_secret sha256 relay_client_id relay_client_key cfg.relay_secret_pepper in
      let targets = relay_allowed_targets cfg in
      let ttl = at_least 60 cfg.relay_key_ttl_seconds in
      let minted : Minted = record {
        client_id = relay_client_id;
        client_key = relay_client_key;
        allowed_targets = targets;
        expires_at = now + ttl;
        ttl_seconds = ttl;
      } in
      elim store [
        | database rows ↦
            let rows' = map (revoke now client_uuid) rows in
            if any (taken client_uuid relay_client_id) rows' then (database rows', none) else (
              database (
                  record {
                    created_at = now;
                    client_uuid = client_uuid;
                    email = email;
                    relay_client_id = relay_client_id;
                    relay_key_hash = relay_key_hash;
                    allowed_targets = targets;
                    expires_at = some (now + ttl);
                    revoked_at = none;
                  }
                  ∷ rows'),
              some minted,
            )
        | memory d ↦ (
          memory (
              Dict.put d relay_client_id (record {
                client_uuid = client_uuid;
                email = email;
                relay_key_hash = relay_key_hash;
                allowed_targets = targets;
                expires_at = now + ttl;
                revoked = false;
              })),
          some minted,
        )
      ]

abbrev pub credential_of : ClientRow → Credential
credential_of r = record {
  client_uuid = r.client_uuid;
  email = r.email;
  relay_key_hash = r.relay_key_hash;
  allowed_targets = r.allowed_targets;
  expires_at = or_else r.expires_at 0;
  revoked = is_some r.revoked_at;
}

-- `ORDER BY created_at DESC LIMIT 1`; the table is kept latest first
abbrev pub later_of : ClientRow → Option ClientRow → ClientRow
later_of r none = r
later_of r (some s) = if ltb r.created_at s.created_at then s else r

unfoldable pub latest : Str → List ClientRow → Option ClientRow
latest i [] = none
latest i (r ∷ rs) =
    let rest = latest i rs in if r.relay_client_id == i then some (later_of r rest) else rest

unfoldable pub find : Str → Store → Option Credential
unfolding latest
find i (database rows) = Option.map credential_of (latest i rows)
find i (memory d) = Dict.get d i

pub data Denial : Type 0 where
  auth_disabled invalid_proxy_token missing_headers unknown_client key_revoked invalid_key
        key_expired :
      Denial
  target_not_allowed : Str → Denial

pub record Grant : Type 0 where
  pub client_uuid : Str
  pub email : Str
  pub allowed_targets : List Str
  pub expires_at : ℕ

pub data Verdict : Type 0 where
  denied : Denial → Verdict
  granted : Grant → Verdict

-- a right that the holders of `config` have as well
abbrev pub with_right : Str → List Str → List Str
with_right t ts =
    if elem (codes "config") ts && not (elem t ts) then sorted_set (ts ++ t ∷ []) else ts

unfoldable pub effective_targets : List Str → List Str
effective_targets ts =
    with_right (codes "llm") (with_right (codes "telemetry") (sorted_set (normalized ts)))

-- the headers of a request, by their lower-case names
abbrev pub header : Dict Str Str → Str → Str
header headers name = or_else (Dict.get headers name) []

unfoldable pub client_header : Dict Str Str → Str
client_header headers =
    first_text (header headers (codes "x-relay-client")) (header headers (codes "x-client-id"))

unfoldable pub key_header : Dict Str Str → Str
key_header headers =
    first_text (header headers (codes "x-relay-key")) (header headers (codes "x-client-key"))

module _ (sha256 : Str → Str) where
  -- the checks of a credential that was found
  unfoldable pub check_credential : Settings → ℕ → Str → Str → Str → Credential → Verdict
  unfolding hash_relay_secret effective_targets
  check_credential cfg now relay_client_id relay_key target c =
      let provided_hash =
        hash_relay_secret sha256 relay_client_id relay_key cfg.relay_secret_pepper in
      let targets = effective_targets c.allowed_targets in
      let bad_target =
        nonempty target && (not (list_beq targets []) && not (elem target targets)) in
      if c.revoked
      then denied key_revoked
      else if not (nonempty c.relay_key_hash) || not (c.relay_key_hash == provided_hash)
      then denied invalid_key
      else if not (c.expires_at == 0) && leb c.expires_at now
      then denied key_expired
      else if bad_target
      then denied (target_not_allowed target)
      else granted (record {
        client_uuid = c.client_uuid;
        email = c.email;
        allowed_targets = targets;
        expires_at = c.expires_at;
      })

  unfoldable pub verify_relay_credentials : Settings → ℕ → Str → Str → Str → Store → Verdict
  unfolding check_credential find
  verify_relay_credentials cfg now id key target store =
      let relay_client_id = strip id in
      let relay_key = strip key in
      if not (nonempty relay_client_id) || not (nonempty relay_key)
      then denied missing_headers
      else elim (find relay_client_id store) [
        | none ↦ denied unknown_client
        | some c ↦ check_credential cfg now relay_client_id relay_key (lower (strip target)) c
      ]

  -- `target` is empty where the caller asks for none.
  unfoldable pub relay_auth_from_request :
      Settings → ℕ → Dict Str Str → Str → Bool → Store → Verdict
  unfolding verify_relay_credentials
  relay_auth_from_request cfg now headers target require_proxy_token store =
      let expected = strip cfg.relay_proxy_shared_token in
      let provided = strip (header headers (codes "x-relay-proxy-token")) in
      if not cfg.relay_enabled
      then denied auth_disabled
      else if require_proxy_token && (nonempty expected && not (expected == provided))
      then denied invalid_proxy_token
      else verify_relay_credentials cfg now (client_header headers) (key_header headers) target
          store
