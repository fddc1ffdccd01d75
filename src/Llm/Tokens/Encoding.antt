-- ===== src/Llm/Tokens/Encoding.antt =====
-- The base64url texts without padding.
use device_management.Llm.Tokens.{
  Crypto, padding, rstrip_padding, b64url_encode, b64url_decode, split_dot,
}
use device_management.Prelude.{
  ℕ, zero, suc, ◌+◌, ◌-◌, ◌%◌, ◌≤◌, ◌≡◌, refl, sym, ap, ◌∙◌, Bool, true, false, not, ◌&&◌, some, [],
  ◌∷◌, ◌++◌, arith, if◌then◌else◌, length, ◌==◌, nat_eq, string_eq, pair_eq, list_eq, Str,
}

-- a character that is neither the padding nor the dot
abbrev pub plain : ℕ → Bool
plain c = not (c == b'=') && not (c == b'.')

abbrev pub all_plain : Str → Bool
all_plain [] = true
all_plain (c ∷ s) = plain c && all_plain s

-- What base64 is documented to do: the decoder inverts the encoder, whose texts are of a length that
-- is a multiple of 4, with at most two characters of padding, all at the end.
pub record Base64Laws (lib : Crypto) : Type 0 where
  pub decode-encode : (raw : Str) → lib.urlsafe_b64decode (lib.urlsafe_b64encode raw) ≡ some raw
  pub body : Str → Str
  pub pads : Str → ℕ
  pub shape : (raw : Str) → lib.urlsafe_b64encode raw ≡ body raw ++ padding (pads raw)
  pub few : (raw : Str) → pads raw ≤ 2
  pub whole : (raw : Str) → (length (body raw) + pads raw) % 4 ≡ 0
  pub letters : (raw : Str) → all_plain (body raw) ≡ true

rstrip-padding : (n : ℕ) → rstrip_padding (padding n) ≡ []
rstrip-padding zero = refl
rstrip-padding (suc n) = rw (rstrip-padding n)

rstrip-body : (s : Str) (n : ℕ) → all_plain s ≡ true → rstrip_padding (s ++ padding n) ≡ s
rstrip-body [] n h = rstrip-padding n
rstrip-body (c ∷ s) n h = rw (rstrip-body s n (ground (arith, h))) (last s)
  where
    off : (c == b'=') ≡ false
    off = ground (arith, h)

    last :
        (r : Str)
        → (elim r as (λ _. Str) [ [] ↦ if c == b'=' then [] else c ∷ [] | d ∷ t ↦ c ∷ d ∷ t ])
          ≡ c ∷ r
    last [] = rw off
    last (d ∷ t) = refl

module _ (lib : Crypto) (laws : Base64Laws lib) where
  pub b64url_encode-body : (raw : Str) → b64url_encode lib raw ≡ laws.body raw
  unfolding b64url_encode
  b64url_encode-body raw =
      ap rstrip_padding (laws.shape raw)
      ∙ rstrip-body (laws.body raw) (laws.pads raw) (laws.letters raw)

  -- Decoding restores exactly the padding that encoding strips: every text comes back.
  pub b64url_decode-encode : (raw : Str) → b64url_decode lib (b64url_encode lib raw) ≡ some raw
  unfolding b64url_decode
  b64url_decode-encode raw =
      let needed : (4 - length (laws.body raw) % 4) % 4 ≡ laws.pads raw =
        omega (arith, laws.few raw, laws.whole raw) in
      ap (λ s. lib.urlsafe_b64decode (s ++ padding ((4 - length s % 4) % 4)))
        (b64url_encode-body raw)
      ∙ ap (λ n. lib.urlsafe_b64decode (laws.body raw ++ padding n)) needed
      ∙ ap lib.urlsafe_b64decode (sym (laws.shape raw))
      ∙ laws.decode-encode raw

pub split_dot-plain : (s t : Str) → all_plain s ≡ true → split_dot (s ++ b'.' ∷ t) ≡ some (s, t)
unfolding split_dot
split_dot-plain [] t h = refl
split_dot-plain (c ∷ s) t h = rw (off, split_dot-plain s t (ground (arith, h)))
  where
    off : (c == b'.') ≡ false
    off = ground (arith, h)
