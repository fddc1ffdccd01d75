-- ===== src/Llm/Tokens/Signatures.antt =====
-- What a token that was minted, and one that was accepted, stand for.
use device_management.Json.{Json, Fields, obj, num, str, bool, null, arr, end, field, get_field}
use device_management.Llm.{Response}
use device_management.Llm.Throttle.{Setting}
use device_management.Llm.Tokens.{
  Crypto, b64url_encode, b64url_decode, split_dot, signing_key, ttl_seconds, token_payload, signed,
  sort_keys, sorted, mint_with, mint_llm_token, claims, refused, invalid, is_llm_scope, int_claim,
  check_expiry, check_payload, parsed, check_signature, verify_token, verify_with, verify_llm_token,
}
use device_management.Llm.Tokens.Encoding.{
  all_plain, Base64Laws, b64url_encode-body, b64url_decode-encode, split_dot-plain,
}
use device_management.Prelude.{
  ℕ, ◌+◌, ◌<◌, String, ◌≡◌, refl, sym, ap, ◌∙◌, subst, ◌≢◌, inl, inr, true, Option, none, some, [],
  ◌∷◌, arith, leb, if◌then◌else◌, Bool-cases, ◌==◌, nat_eq, string_eq, pair_eq, ==_refl, ℤ, pos,
  pos_part, list_eq, list_beq_iff, Str, codes,
}

-- the fields of a payload, in the order of their keys
abbrev pub token_fields : String → ℕ → ℕ → String → String → Fields
token_fields jti now exp client_uuid email = field "client_uuid" (str client_uuid) (
    field "email" (str email) (
      field "exp" (num (pos exp))
        (field "iat" (num (pos now)) (field "jti" (str jti) (field "scope" (str "llm") end)))))

sort_keys-token_payload :
    (jti : String) (now exp : ℕ) (client_uuid email : String)
    → sorted (token_payload jti now exp client_uuid email)
      ≡ obj (token_fields jti now exp client_uuid email)
unfolding sort_keys
sort_keys-token_payload jti now exp client_uuid email = refl

module _ (lib : Crypto) (laws : Base64Laws lib) where
  verify_token-signed :
      (secret : Str) (payload : Json) (now : ℕ)
      → lib.loads (lib.dumps (sorted payload)) ≡ some (sorted payload)
      → verify_token lib now secret (split_dot (signed lib secret payload))
        ≡ check_payload now (some (sorted payload))
  unfolding verify_token signed check_signature
  verify_token-signed secret payload now print_parse =
      let p = b64url_encode lib (lib.dumps (sorted payload)) in
      let sig = lib.hmac_sha256 secret p in
      let plain_p =
        subst (λ s. all_plain s ≡ true)
          (sym (b64url_encode-body lib laws (lib.dumps (sorted payload))))
          (laws.letters (lib.dumps (sorted payload))) in
      ap (verify_token lib now secret) (split_dot-plain p (b64url_encode lib sig) plain_p)
      ∙ ap (check_signature lib now secret p) (b64url_decode-encode lib laws sig)
      ∙ rw (==_refl sig) (
          ap (λ o. check_payload now (parsed lib o))
            (b64url_decode-encode lib laws (lib.dumps (sorted payload)))
          ∙ ap (check_payload now) print_parse)

  check_payload-minted :
      (jti client_uuid email : String) (at exp now : ℕ)
      → check_payload now (some (obj (token_fields jti at exp client_uuid email))) ≡ (
          if leb exp now
          then invalid (codes "Llm token expired.")
          else claims (token_fields jti at exp client_uuid email))
  unfolding check_payload get_field int_claim
  check_payload-minted jti client_uuid email at exp now = refl

  minted_verified :
      (ttl now later : ℕ) (jti client_uuid email : String) (secret : Str)
      → secret ≢ []
      → lib.loads (lib.dumps (obj (token_fields jti now (now + ttl) client_uuid email)))
        ≡ some (obj (token_fields jti now (now + ttl) client_uuid email))
      → let r = mint_with lib ttl now jti client_uuid email secret in
        (r.1 ≡ some (now + ttl))
        × (verify_with lib later r.0 secret
            ≡ check_payload later (some (obj (token_fields jti now (now + ttl) client_uuid email))))
  unfolding mint_with verify_with
  minted_verified ttl now later jti client_uuid email [] set print_parse = absurd (set refl)
  minted_verified ttl now later jti client_uuid email (c ∷ secret) set print_parse = (
    refl,
    rw (← sort_keys-token_payload jti now (now + ttl) client_uuid email) (
        verify_token-signed (c ∷ secret) (token_payload jti now (now + ttl) client_uuid email) later
          (rw (sort_keys-token_payload jti now (now + ttl) client_uuid email) print_parse)),
  )

  -- A token that is minted under a key that is set is verified, under the same key, as its claims
  -- before it expires, and as expired from that second on. The claims are those of the
  -- payload in the order of their keys, in which they are printed; the JSON library is taken to read
  -- back the object that it printed.
  pub mint_llm_token-verify :
      (key_setting ttl_setting : Setting) (now later : ℕ) (jti client_uuid email : String)
      → signing_key key_setting ≢ []
      → lib.loads
          (lib.dumps (obj (token_fields jti now (now + ttl_seconds ttl_setting) client_uuid email)))
        ≡ some (obj (token_fields jti now (now + ttl_seconds ttl_setting) client_uuid email))
      → let exp = now + ttl_seconds ttl_setting in
        let r = mint_llm_token lib key_setting ttl_setting now jti client_uuid email in
        (r.1 ≡ some exp)
        × (verify_llm_token lib key_setting later r.0 ≡ (
            if leb exp later
            then invalid (codes "Llm token expired.")
            else claims (token_fields jti now exp client_uuid email)))
  unfolding mint_llm_token verify_llm_token
  mint_llm_token-verify key_setting ttl_setting now later jti client_uuid email set print_parse =
      let (expires, verified) =
        minted_verified (ttl_seconds ttl_setting) now later jti client_uuid email
          (signing_key key_setting) set print_parse in
      (
        expires,
        verified
            ∙ check_payload-minted jti client_uuid email now (now + ttl_seconds ttl_setting) later,
      )

refused-ne-claims : {r : Response} {fs : Fields} → refused r ≡ claims fs → ⊥
refused-ne-claims h = absurd (ground arith)

-- what an accepted payload is
abbrev pub Accepted : ℕ → Option Json → Fields → Type 0
Accepted now o fs =
    (o ≡ some (obj fs))
    × ((is_llm_scope (get_field fs "scope") ≡ true)
        × ((e : ℤ) × (int_claim (get_field fs "exp") ≡ some e) × (now < pos_part e)))

check_expiry-Accepted :
    (now : ℕ) (fs gs : Fields) (o : Option ℤ)
    → check_expiry now gs o ≡ claims fs
    → (gs ≡ fs) × ((e : ℤ) × (o ≡ some e) × (now < pos_part e))
check_expiry-Accepted now fs gs none h = absurd (ground arith)
check_expiry-Accepted now fs gs (some e) h = elim (Bool-cases (leb (pos_part e) now)) [
  | inl q ↦ absurd (refused-ne-claims (rw q at h))
  | inr q ↦ (same (rw q at h), (e, refl, ground (arith, q)))
]
  where
    same : claims gs ≡ claims fs → gs ≡ fs
    same k = cc

check_payload-Accepted :
    (now : ℕ) (fs : Fields) (o : Option Json) → check_payload now o ≡ claims fs → Accepted now o fs
unfolding check_payload
check_payload-Accepted now fs none h = absurd (refused-ne-claims h)
check_payload-Accepted now fs (some null) h = absurd (refused-ne-claims h)
check_payload-Accepted now fs (some (bool b)) h = absurd (refused-ne-claims h)
check_payload-Accepted now fs (some (num n)) h = absurd (refused-ne-claims h)
check_payload-Accepted now fs (some (str s)) h = absurd (refused-ne-claims h)
check_payload-Accepted now fs (some (arr xs)) h = absurd (refused-ne-claims h)
check_payload-Accepted now fs (some (obj gs)) h =
    elim (Bool-cases (is_llm_scope (get_field gs "scope"))) [
      | inr q ↦ absurd (refused-ne-claims (rw q at h))
      | inl q ↦
          let (same, exp) =
            check_expiry-Accepted now fs gs (int_claim (get_field gs "exp")) (rw q at h) in
          (
            ap (λ x. some (obj x)) same,
            (
              subst (λ x. is_llm_scope (get_field x "scope") ≡ true) same q,
              subst (λ x. (e : ℤ) × (int_claim (get_field x "exp") ≡ some e) × (now < pos_part e))
                  same exp,
            ),
          )
    ]

check_signature-Accepted :
    (lib : Crypto) (now : ℕ) (secret p : Str) (o : Option Str) (fs : Fields)
    → check_signature lib now secret p o ≡ claims fs
    → (o ≡ some (lib.hmac_sha256 secret p)) × Accepted now (parsed lib (b64url_decode lib p)) fs
unfolding check_signature
check_signature-Accepted lib now secret p none fs h = absurd (refused-ne-claims h)
check_signature-Accepted lib now secret p (some given) fs h =
    elim (Bool-cases (lib.hmac_sha256 secret p == given)) [
      | inr q ↦ absurd (refused-ne-claims (rw q at h))
      | inl q ↦ (
        ap some (sym ((list_beq_iff (lib.hmac_sha256 secret p) given).0 q)),
        check_payload-Accepted now fs (parsed lib (b64url_decode lib p)) (rw q at h),
      )
    ]

-- what an accepted token is, under a key
abbrev pub Signed : Crypto → ℕ → Str → Option (Str × Str) → Fields → Type 0
Signed lib now secret parts fs =
    (p : Str) × (s : Str) × (parts ≡ some (p, s))
    × (b64url_decode lib s ≡ some (lib.hmac_sha256 secret p))
    × Accepted now (parsed lib (b64url_decode lib p)) fs

verify_token-Signed :
    (lib : Crypto) (now : ℕ) (secret : Str) (parts : Option (Str × Str)) (fs : Fields)
    → verify_token lib now secret parts ≡ claims fs
    → Signed lib now secret parts fs
unfolding verify_token
verify_token-Signed lib now secret none fs h = absurd (refused-ne-claims h)
verify_token-Signed lib now secret (some (p, s)) fs h =
    let (signature, payload) =
      check_signature-Accepted lib now secret p (b64url_decode lib s) fs h in
    (p, s, refl, signature, payload)

verify_with-Signed :
    (lib : Crypto) (now : ℕ) (token secret : Str) (fs : Fields)
    → verify_with lib now token secret ≡ claims fs
    → (secret ≢ []) × Signed lib now secret (split_dot token) fs
unfolding verify_with
verify_with-Signed lib now token [] fs h = absurd (refused-ne-claims h)
verify_with-Signed lib now token (c ∷ secret) fs h =
    (λ q. absurd (ground arith), verify_token-Signed lib now (c ∷ secret) (split_dot token) fs h)

-- A token is accepted only under a key that is set, with a signature that is the HMAC of its payload
-- under that key, and with a payload that decodes to the claims, of scope `llm`, and not expired.
pub verify_llm_token_sound :
    (lib : Crypto) (key_setting : Setting) (now : ℕ) (token : Str) (fs : Fields)
    → verify_llm_token lib key_setting now token ≡ claims fs
    → (signing_key key_setting ≢ []) × Signed lib now (signing_key key_setting) (split_dot token) fs
unfolding verify_llm_token
verify_llm_token_sound lib key_setting now token fs h =
    verify_with-Signed lib now token (signing_key key_setting) fs h
