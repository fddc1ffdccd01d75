-- ===== src/Llm/Auth/Revocation.antt =====
-- A client whose credentials are all revoked has no way in.
use mathlib.Core.Option
use device_management.Json.{Json, get_field}
use device_management.Prelude.Dict.{Dict}
use device_management.Llm.{Identity}
use device_management.Llm.Throttle.{Setting}
use device_management.Llm.Tokens.{Crypto, Verified, claims, refused, crashed, verify_llm_token}
use device_management.Relay
use device_management.Relay.{
  Credential, ClientRow, Store, database, memory, Grant, Verdict, granted, denied, latest, later_of,
  find, credential_of, client_header, key_header, relay_auth_from_request,
}
use device_management.Relay.Verification.{relay_auth_from_request_sound}
use device_management.Llm.Auth.{
  active_row, client_uuid_is_active, Resolved, identified, rejected, failed, by_relay, by_claims,
  by_token, bearer, resolve, text_claim, nonempty,
}
use device_management.Prelude.{
  ℕ, ◌≡◌, refl, sym, ap, ◌∙◌, subst, ◌≢◌, ◌⊎◌, inl, inr, Bool, true, false, Option, none, some,
  List, [], ◌∷◌, Memᴰ, arith, ltb, if◌then◌else◌, Bool-cases, Option-cases, or_else, is_some,
  none-ne-some, false-ne-true, any→Memᴰ, ◌==◌, nat_eq, string_eq, pair_eq, list_eq, list_beq_iff,
  Str, codes, strip,
}

later_of_cases :
    (r : ClientRow) (o : Option ClientRow) → (later_of r o ≡ r) ⊎ (o ≡ some (later_of r o))
later_of_cases r none = inl refl
later_of_cases r (some s) = elim (Bool-cases (ltb r.created_at s.created_at)) [
  | inl e ↦ inr (rw e)
  | inr e ↦ inl (rw e)
]

latest-Memᴰ :
    (i : Str) (rows : List ClientRow) (r : ClientRow) → latest i rows ≡ some r → Memᴰ r rows
unfolding latest
latest-Memᴰ i [] r h = absurd (none-ne-some h)
latest-Memᴰ i (s ∷ rs) r h = elim (Bool-cases (s.relay_client_id == i)) [
  | inr e ↦ Memᴰ.tail (latest-Memᴰ i rs r (rw e at h))
  | inl e ↦ chosen (latest-Memᴰ i rs r) (rw e at h) (later_of_cases s (latest i rs))
]
  where
    chosen :
        (latest i rs ≡ some r → Memᴰ r rs)
        → some (later_of s (latest i rs)) ≡ some r
        → (later_of s (latest i rs) ≡ s) ⊎ (latest i rs ≡ some (later_of s (latest i rs)))
        → Memᴰ r (s ∷ rs)
    chosen ih q (inl e) = Memᴰ.head (sym (ap (λ o. or_else o s) q) ∙ e)
    chosen ih q (inr e) = Memᴰ.tail (ih (e ∙ q))

-- every credential of a client is revoked
abbrev pub Revoked : Str → List ClientRow → Type 0
Revoked client_uuid rows =
    (r : ClientRow) → Memᴰ r rows → r.client_uuid ≡ client_uuid → is_some r.revoked_at ≡ true

-- the client of an identity
client_of : Resolved → Str
client_of (identified i) = i.client_uuid
client_of (rejected r) = []
client_of failed = []

is_identified : Resolved → Bool
is_identified (identified i) = true
is_identified (rejected r) = false
is_identified failed = false

not_identified : {x : Resolved} {i : Identity} → is_identified x ≡ false → x ≡ identified i → ⊥
unfolding is_identified
not_identified h e = false-ne-true (sym h ∙ ap is_identified e)

either_way : (b : Bool) (x y z : Resolved) → (if b then x else y) ≡ z → (x ≡ z) ⊎ (y ≡ z)
either_way true x y z h = inl h
either_way false x y z h = inr h

client_uuid_is_active-Revoked :
    (now : ℕ) (rows : List ClientRow) (u : Str)
    → client_uuid_is_active now (database rows) u ≡ true
    → Revoked u rows
    → ⊥
unfolding client_uuid_is_active active_row
client_uuid_is_active-Revoked now rows [] h all = false-ne-true h
client_uuid_is_active-Revoked now rows (c ∷ u) h all =
    let (r, m, q) = any→Memᴰ (active_row now (c ∷ u)) rows h in
    let revoked = all r m ((list_beq_iff r.client_uuid (c ∷ u)).0 (ground (arith, q))) in
    absurd (ground (arith, q, revoked))

module _ (sha256 : Str → Str) (lib : Crypto) (show : Json → Str) (cfg : Relay.Settings)
    (key_setting : Setting) (now : ℕ) where
  by_relay-Revoked :
      (headers : Dict Str Str) (rows : List ClientRow) (v : Verdict) (i : Identity)
      → relay_auth_from_request sha256 cfg now headers (codes "llm") false (database rows) ≡ v
      → by_relay v ≡ identified i
      → Revoked i.client_uuid rows
      → ⊥
  unfolding find is_identified client_of
  by_relay-Revoked headers rows (denied d) i h e all = not_identified refl e
  by_relay-Revoked headers rows (granted g) i h e all =
      let (enabled, (c, found, opens)) =
        relay_auth_from_request_sound sha256 cfg now headers (codes "llm") false (database rows) g
          h in
      elim (Option-cases (latest (strip (client_header headers)) rows)) [
        | inl n ↦ none-ne-some (sym (ap (Option.map credential_of) n) ∙ found)
        | inr (r, f) ↦
            let same : credential_of r ≡ c =
              ap (λ o. or_else o c) (sym (ap (Option.map credential_of) f) ∙ found) in
            let own : r.client_uuid ≡ i.client_uuid =
              ap (λ (x : Credential). x.client_uuid) same
              ∙ sym opens.same_client
              ∙ ap client_of e in
            false-ne-true (
              sym opens.live
              ∙ sym (ap (λ (x : Credential). x.revoked) same)
              ∙ all r (latest-Memᴰ (strip (client_header headers)) rows r f) own)
      ]

  by_claims-Revoked :
      (rows : List ClientRow) (v : Verified) (i : Identity)
      → by_claims show now (database rows) v ≡ identified i
      → Revoked i.client_uuid rows
      → ⊥
  unfolding by_claims is_identified client_of
  by_claims-Revoked rows (refused r) i e all = not_identified refl e
  by_claims-Revoked rows crashed i e all = not_identified refl e
  by_claims-Revoked rows (claims fs) i e all =
      let u = text_claim show (get_field fs "client_uuid") in
      elim (Bool-cases (client_uuid_is_active now (database rows) u)) [
        | inr q ↦ not_identified refl (rw q at e)
        | inl q ↦
            client_uuid_is_active-Revoked now rows u q
              (subst (λ x. Revoked x rows) (sym (ap client_of (rw q at e))) all)
      ]

  by_token-Revoked :
      (rows : List ClientRow) (token : Str) (i : Identity)
      → by_token lib show key_setting now (database rows) token ≡ identified i
      → Revoked i.client_uuid rows
      → ⊥
  unfolding is_identified
  by_token-Revoked rows [] i e all = not_identified refl e
  by_token-Revoked rows (c ∷ token) i e all =
      by_claims-Revoked rows (verify_llm_token lib key_setting now (c ∷ token)) i e all

  -- Once every credential of a client is revoked in the database, no request is identified as that
  -- client: neither with relay headers nor with a token, however long the token is still valid.
  pub resolve-Revoked :
      (headers : Dict Str Str) (rows : List ClientRow) (i : Identity)
      → Revoked i.client_uuid rows
      → resolve sha256 lib show cfg key_setting now headers (database rows) ≢ identified i
  unfolding resolve
  resolve-Revoked headers rows i all e =
      elim (either_way (nonempty (strip (client_header headers)))
        (by_relay
          (relay_auth_from_request sha256 cfg now headers (codes "llm") false (database rows)))
        (by_token lib show key_setting now (database rows) (bearer headers)) (identified i) e) [
          | inl q ↦ by_relay-Revoked headers rows _ i refl q all
          | inr q ↦ by_token-Revoked rows (bearer headers) i q all
        ]
