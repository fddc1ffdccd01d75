-- ===== src/Relay/Rotation.antt =====
-- Rotation: what a mint does to the credentials that are there.
use mathlib.Core.Option
use device_management.Prelude.Dict.{Dict, get-put}
use device_management.Relay.{
  Verdict, Settings, Credential, ClientRow, Store, database, memory, key_revoked, missing_headers,
  unknown_client, denied, find, latest, credential_of, revoke, taken, nonempty, check_credential,
  verify_relay_credentials, mint_or_rotate_relay_credentials,
}
use device_management.Relay.Minting.{latest-map-revoke, latest-cons, verify_found}
use device_management.Prelude.{
  if◌then◌else◌, ℕ, ◌≡◌, sym, ap, ◌∙◌, subst, ◌≢◌, ◌⊎◌, inl, inr, true, false, not, ◌||◌, none,
  some, List, map, arith, Bool-cases, any, ◌==◌, nat_eq, string_eq, pair_eq, ==_refl, list_eq,
  list_beq_iff, Str, lower, strip,
}

module _ (sha256 : Str → Str) (cfg : Settings) (now : ℕ) where
  latest-mint :
      (id key uuid email other : Str) (rows : List ClientRow)
      → other ≢ id
      → find other
          (mint_or_rotate_relay_credentials sha256 cfg now id key uuid email (database rows)).0
        ≡ Option.map credential_of (Option.map (revoke now uuid) (latest other rows))
  unfolding mint_or_rotate_relay_credentials find
  latest-mint id key uuid email other rows ne =
      let kept = latest-map-revoke now uuid other rows in
      elim (Bool-cases (any (taken uuid id) (map (revoke now uuid) rows))) [
        | inl e ↦ rw (e, kept)
        | inr e ↦ rw e (
            ap (Option.map credential_of)
              ((latest-cons other _ (map (revoke now uuid) rows)).1 (λ q. ne (sym q)) ∙ kept))
      ]

  revoke-revoked : (r : ClientRow) → (credential_of (revoke now r.client_uuid r)).revoked ≡ true
  unfolding revoke
  revoke-revoked r = ground (arith, ==_refl r.client_uuid)

  revoked-refused :
      {c : Credential} (other old_key target : Str) (later : ℕ) (s : Store)
      → find other s ≡ some c
      → strip other ≡ other
      → nonempty other ≡ true
      → nonempty (strip old_key) ≡ true
      → c.revoked ≡ true
      → verify_relay_credentials sha256 cfg later other old_key target s ≡ denied key_revoked
  unfolding check_credential
  revoked-refused {c} other old_key target later s f so n nk r =
      verify_found sha256 cfg now other old_key target later s c so n nk f ∙ rw r

  -- Rotation in the database: after a mint, whether or not it stores a new credential, every older
  -- credential of the client is refused as revoked, whatever key and target come with it.
  pub mint_or_rotate-revokes :
      (id key uuid email other old_key target : Str) (later : ℕ) (rows : List ClientRow)
      (old : ClientRow)
      → other ≢ id
      → latest other rows ≡ some old
      → old.client_uuid ≡ uuid
      → strip other ≡ other
      → nonempty other ≡ true
      → nonempty (strip old_key) ≡ true
      → verify_relay_credentials sha256 cfg later other old_key target
          (mint_or_rotate_relay_credentials sha256 cfg now id key uuid email (database rows)).0
        ≡ denied key_revoked
  mint_or_rotate-revokes id key uuid email other old_key target later rows old ne h own so n nk =
      revoked-refused other old_key target later _
        (latest-mint id key uuid email other rows ne
          ∙ ap (λ o. Option.map credential_of (Option.map (revoke now uuid) o)) h)
        so n nk
        (subst (λ u. (credential_of (revoke now u old)).revoked ≡ true) own (revoke-revoked old))

  -- No rotation in the store in memory: a mint leaves the verification of every other client id as
  -- it was, those of the same client too.
  pub mint_or_rotate-memory :
      (id key uuid email other other_key target : Str) (later : ℕ) (d : Dict Str Credential)
      → strip other ≢ id
      → verify_relay_credentials sha256 cfg later other other_key target
          (mint_or_rotate_relay_credentials sha256 cfg now id key uuid email (memory d)).0
        ≡ verify_relay_credentials sha256 cfg later other other_key target (memory d)
  unfolding mint_or_rotate_relay_credentials verify_relay_credentials find
  mint_or_rotate-memory id key uuid email other other_key target later d ne =
      ap
        (λ o.
          if not (nonempty (strip other)) || not (nonempty (strip other_key))
          then denied missing_headers
          else (elim o as (λ _. Verdict) [
            | none ↦ denied unknown_client
            | some c ↦
                check_credential sha256 cfg later (strip other) (strip other_key)
                  (lower (strip target)) c
          ]))
        (get-put d id (strip other) _ ∙ rw (off (Bool-cases (id == strip other))))
    where
      off :
          ((id == strip other) ≡ true) ⊎ ((id == strip other) ≡ false) → (id == strip other) ≡ false
      off (inl e) = absurd (ne (sym ((list_beq_iff id (strip other)).0 e)))
      off (inr e) = e
