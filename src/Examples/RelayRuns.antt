-- ===== src/Examples/RelayRuns.antt =====
-- A device that enrols, calls, and enrols again.
use device_management.Prelude.Dict
use device_management.Prelude.Dict.{Dict}
use device_management.Relay.{
  Settings, Credential, ClientRow, Store, database, memory, Minted, Grant, key_revoked, granted,
  denied, find, latest, nonempty, hash_relay_secret, check_credential, effective_targets,
  client_header, key_header, verify_relay_credentials, relay_auth_from_request,
  mint_or_rotate_relay_credentials,
}
use device_management.Relay.Verification.{Opens, relay_auth_from_request_sound}
use device_management.Relay.Minting.{mint_or_rotate-verify}
use device_management.Relay.Rotation.{mint_or_rotate-revokes}
use device_management.Prelude.{
  ◌≡◌, refl, sym, ap, ◌≢◌, inr, true, false, none, some, [], ◌∷◌, arith, false-ne-true, nat_eq,
  string_eq, pair_eq, pos, list_eq, list_beq, Str, codes, lower, strip,
}

abbrev pub sha256 : Str → Str
sha256 s = b'h' ∷ s

abbrev pub settings : Settings
settings = record {
  relay_enabled = true;
  relay_allowed_targets_csv = codes "keycloak";
  relay_secret_pepper = codes "p";
  relay_key_ttl_seconds = pos 3600;
  relay_proxy_shared_token = [];
}

hex : (s : Str) → nonempty (sha256 s) ≡ true
hex s = refl

rc1_absent : find (codes "rc1") (database []) ≡ none
unfolding find latest
rc1_absent = refl

mint_or_rotate-verify_example :
    let r =
      mint_or_rotate_relay_credentials sha256 settings 100
        (codes "rc1")
        (codes "key")
        (codes "u1")
        (codes "a@b")
        (database []) in
    (m : Minted) × (r.1 ≡ some m)
    × ((g : Grant) × (verify_relay_credentials sha256 settings 200 m.client_id m.client_key
            (codes "llm")
            r.0
          ≡ granted g)
        × (g.client_uuid ≡ codes "u1")
        × (g.email ≡ codes "a@b"))
mint_or_rotate-verify_example =
    mint_or_rotate-verify sha256 settings 100 hex (codes "rc1") (codes "key") (codes "u1")
      (codes "a@b") (database []) (codes "llm") 200 refl refl refl refl rc1_absent (omega arith)
      (inr (inr (inr refl)))

abbrev credential : Credential
credential = record {
  client_uuid = codes "u1";
  email = codes "a@b";
  relay_key_hash = codes "hrc1:key:p";
  allowed_targets = codes "config" ∷ [];
  expires_at = 3700;
  revoked = false;
}

abbrev store : Store
store = memory ((codes "rc1", credential) ∷ [])

abbrev headers : Dict Str Str
headers = (codes "x-relay-client", codes "rc1") ∷ (codes "x-relay-key", codes "key") ∷ []

call_granted :
    (g : Grant) × (relay_auth_from_request sha256 settings 200 headers
        (codes "telemetry")
        false
        store
      ≡ granted g)
unfolding relay_auth_from_request verify_relay_credentials check_credential find hash_relay_secret
    effective_targets client_header key_header Dict.get
call_granted = (_, refl)

relay_auth_from_request_sound_example :
    (settings.relay_enabled ≡ true)
    × ((c : Credential) × (find (strip (client_header headers)) store ≡ some c)
        × Opens sha256 settings 200
            (strip (client_header headers))
            (strip (key_header headers))
            (lower (strip (codes "telemetry")))
            c
            call_granted.0)
relay_auth_from_request_sound_example =
    relay_auth_from_request_sound sha256 settings 200 headers (codes "telemetry") false store
      call_granted.0 call_granted.1

apart : codes "rc1" ≢ codes "rc2"
apart e = false-ne-true (ap (λ s. list_beq s (codes "rc1")) (sym e))

abbrev enrolled : ClientRow
enrolled = record {
  created_at = 100;
  client_uuid = codes "u1";
  email = codes "a@b";
  relay_client_id = codes "rc1";
  relay_key_hash = codes "hrc1:key:p";
  allowed_targets = codes "config" ∷ [];
  expires_at = some 3700;
  revoked_at = none;
}

latest-enrolled : latest (codes "rc1") (enrolled ∷ []) ≡ some enrolled
unfolding latest
latest-enrolled = refl

mint_or_rotate-revokes_example :
    verify_relay_credentials sha256 settings 400
      (codes "rc1")
      (codes "key")
      (codes "llm")
      (mint_or_rotate_relay_credentials sha256 settings 300
        (codes "rc2")
        (codes "key2")
        (codes "u1")
        (codes "a@b")
        (database (enrolled ∷ []))).0
    ≡ denied key_revoked
mint_or_rotate-revokes_example =
    mint_or_rotate-revokes sha256 settings 300 (codes "rc2") (codes "key2") (codes "u1")
      (codes "a@b") (codes "rc1") (codes "key") (codes "llm") 400 (enrolled ∷ []) enrolled apart
      latest-enrolled refl refl refl refl
