-- ===== src/Examples/AuthRuns.antt =====
-- A signed token, with toy libraries: each byte is four letters, flat objects are printed, and one
-- text is parsed.
use device_management.Json.{Json, Fields, obj, num, str, end, field}
use device_management.Prelude.Dict.{Dict}
use device_management.Llm.{Identity}
use device_management.Llm.Throttle.{Setting}
use device_management.Llm.Tokens.{
  Crypto, claims, invalid, signing_key, ttl_seconds, split_dot, mint_llm_token, verify_llm_token,
}
use device_management.Llm.Tokens.Encoding.{all_plain, Base64Laws}
use device_management.Llm.Tokens.Signatures.{
  token_fields, Signed, mint_llm_token-verify, verify_llm_token_sound,
}
use device_management.Llm.Auth.{identified, resolve}
use device_management.Llm.Auth.Revocation.{Revoked, resolve-Revoked}
use device_management.Relay.{ClientRow, database}
use device_management.Examples.RelayRuns.{sha256, settings}
use device_management.Prelude.{
  ◌+◌, ◌-◌, ◌%◌, ◌≡◌, refl, ap, ◌≢◌, true, none, some, [], ◌∷◌, ◌++◌, Memᴰ, arith, leb,
  if◌then◌else◌, is_some, false-ne-true, length, nat_eq, string_eq, pair_eq, list_eq, list_beq, Str,
  decimal, ◌==◌, ==_refl, pos_part, codes,
}

abbrev letters : Str → Str
letters [] = []
letters (c ∷ s) = (c + 62) ∷ (c + 62) ∷ (c + 62) ∷ (c + 62) ∷ letters s

abbrev bytes : Str → Str
bytes (a ∷ b ∷ c ∷ d ∷ s) = (a - 62) ∷ bytes s
bytes _ = []

abbrev payload : Json
payload = obj (token_fields "j" 100 3700 "u1" "a@b")

abbrev quoted : Str → Str
quoted s = b'"' ∷ s ++ b'"' ∷ []

abbrev print_value : Json → Str
print_value (num n) = decimal (pos_part n)
print_value (str s) = quoted (codes s)
print_value _ = codes "null"

abbrev print_fields : Fields → Str
print_fields end = b'}' ∷ []
print_fields (field k v fs) = quoted (codes k) ++ (b':' ∷ print_value v ++ (b',' ∷ print_fields fs))

abbrev print : Json → Str
print (obj fs) = b'{' ∷ print_fields fs
print v = print_value v

abbrev lib : Crypto
lib = record {
  hmac_sha256 = λ key message. key ++ message;
  urlsafe_b64encode = letters;
  urlsafe_b64decode = λ s. some (bytes s);
  dumps = print;
  loads = λ s. if s == print payload then some payload else none;
}

bytes-letters : (s : Str) → bytes (letters s) ≡ s
bytes-letters [] = refl
bytes-letters (c ∷ s) = let byte : c + 62 - 62 ≡ c = omega arith in rw (byte, bytes-letters s)

letters-length : (s : Str) → (length (letters s) + 0) % 4 ≡ 0
letters-length [] = refl
letters-length (c ∷ s) = omega (arith, letters-length s)

letters-plain : (s : Str) → all_plain (letters s) ≡ true
letters-plain [] = refl
letters-plain (c ∷ s) = ground (arith, letters-plain s)

letters-append : (s : Str) → letters s ≡ letters s ++ []
letters-append [] = refl
letters-append (c ∷ s) = ap (λ t. (c + 62) ∷ (c + 62) ∷ (c + 62) ∷ (c + 62) ∷ t) (letters-append s)

laws : Base64Laws lib
laws = record {
  decode-encode = λ raw. ap some (bytes-letters raw);
  body = letters;
  pads = λ raw. 0;
  shape = letters-append;
  few = λ raw. omega arith;
  whole = letters-length;
  letters = letters-plain;
}

abbrev key : Setting
key = some (codes "secret")

key_set : signing_key key ≢ []
unfolding signing_key
key_set e = false-ne-true (ap (λ s. list_beq s []) e)

printed :
    lib.loads (lib.dumps (obj (token_fields "j" 100 (100 + ttl_seconds none) "u1" "a@b")))
    ≡ some (obj (token_fields "j" 100 (100 + ttl_seconds none) "u1" "a@b"))
unfolding ttl_seconds
printed = rw (==_refl (print payload)) refl

mint_llm_token-verify_example :
    let r = mint_llm_token lib key none 100 "j" "u1" "a@b" in
    (r.1 ≡ some (100 + ttl_seconds none))
    × (verify_llm_token lib key 200 r.0 ≡ (
        if leb (100 + ttl_seconds none) 200
        then invalid (codes "Llm token expired.")
        else claims (token_fields "j" 100 (100 + ttl_seconds none) "u1" "a@b")))
mint_llm_token-verify_example =
    mint_llm_token-verify lib laws key none 100 200 "j" "u1" "a@b" key_set printed

accepted :
    verify_llm_token lib key 200 (mint_llm_token lib key none 100 "j" "u1" "a@b").0
    ≡ claims (token_fields "j" 100 3700 "u1" "a@b")
unfolding ttl_seconds
accepted = (mint_llm_token-verify lib laws key none 100 200 "j" "u1" "a@b" key_set printed).1

verify_llm_token_sound_example :
    (signing_key key ≢ [])
    × Signed lib 200
        (signing_key key)
        (split_dot (mint_llm_token lib key none 100 "j" "u1" "a@b").0)
        (token_fields "j" 100 3700 "u1" "a@b")
verify_llm_token_sound_example =
    verify_llm_token_sound lib key 200 (mint_llm_token lib key none 100 "j" "u1" "a@b").0
      (token_fields "j" 100 3700 "u1" "a@b") accepted

abbrev revoked_row : ClientRow
revoked_row = record {
  created_at = 100;
  client_uuid = codes "u1";
  email = codes "a@b";
  relay_client_id = codes "rc1";
  relay_key_hash = codes "hrc1:key:p";
  allowed_targets = codes "config" ∷ [];
  expires_at = some 3700;
  revoked_at = some 150;
}

abbrev identity : Identity
identity = record {
  client_uuid = codes "u1";
  email = codes "a@b";
  auth_method = codes "llm_token";
  expires_at = some 3700;
}

all-Revoked : Revoked identity.client_uuid (revoked_row ∷ [])
all-Revoked r (Memᴰ.head q) e = ap (λ (x : ClientRow). is_some x.revoked_at) q
all-Revoked r (Memᴰ.tail m) e = elim m [ ]

abbrev headers : Dict Str Str
headers =
    (codes "authorization", codes "Bearer " ++ (mint_llm_token lib key none 100 "j" "u1" "a@b").0)
    ∷ []

resolve-Revoked_example :
    resolve sha256 lib (λ j. []) settings key 200 headers (database (revoked_row ∷ []))
    ≢ identified identity
resolve-Revoked_example =
    resolve-Revoked sha256 lib (λ j. []) settings key 200 headers (revoked_row ∷ []) identity
      all-Revoked
