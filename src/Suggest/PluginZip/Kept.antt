-- ===== src/Suggest/PluginZip/Kept.antt =====
-- What a package can make the reader keep, and what each file adds to it.
use device_management.Suggest.PluginZip.{
  max_decompressed_bytes, max_file_bytes, Member, Parsers, Parsed, Read, bytes, too_large, damaged,
  read_content, read_zip_member, excerpt, with_config, with_manifest, with_description,
  with_excerpt,
}
use device_management.Prelude.{
  ℕ, ◌+◌, ◌≤◌, ◌≡◌, ap, subst, inl, inr, ◌⊎◌, or_else, Option, none, some, List, [], ◌∷◌, ◌++◌,
  Memᴰ, arith, ltb, Bool-cases, length, take, length-append, length-take-le, Each,
  Memᴰ-append_cases, nat_eq, string_eq, pair_eq, list_eq, Str, codes,
}

length-excerpt : (name raw : Str) → length (excerpt name raw) ≤ length name + 8009
unfolding excerpt
length-excerpt name raw = omega (
  arith,
  length-append {0} name (codes " ---" ++ 10 ∷ take 8000 raw),
  length-take-le {0} 8000 raw,
)

bytes_of : Read → List ℕ
bytes_of (bytes b) = b
bytes_of too_large = []
bytes_of damaged = []

read_content-le :
    (content : Option (List ℕ)) {b : List ℕ}
    → read_content content ≡ bytes b
    → length b ≤ max_file_bytes
unfolding bytes_of
read_content-le none h = absurd (cc)
read_content-le (some c) h =
    subst (λ l. length l ≤ max_file_bytes) (ap bytes_of h) (length-take-le max_file_bytes c)

pub read_zip_member-le :
    (m : Member) {b : List ℕ} → read_zip_member m ≡ bytes b → length b ≤ max_file_bytes
unfolding read_zip_member
read_zip_member-le m {b} h = elim (Bool-cases (ltb max_file_bytes m.file_size)) [
  | inl e ↦ refused (rw e at h)
  | inr e ↦ read_content-le m.content (rw e at h)
]
  where
    refused : too_large ≡ bytes b → length b ≤ max_file_bytes
    refused q = absurd (cc)

abbrev pub IconWithin : Option (List ℕ) → Type 0
IconWithin none = Unit
IconWithin (some b) = length b ≤ max_file_bytes

module _ {J : Type 0} (parsers : Parsers J) where
  -- a text that was read from a member, within the bound on a file and the bound on all texts
  pub record TextOf (m : Member) (raw : Str) : Type 0 where
    pub content : List ℕ
    pub read : read_zip_member m ≡ bytes content
    pub file : length content ≤ max_file_bytes
    pub decoded : raw ≡ parsers.decode content
    pub text : length raw ≤ max_decompressed_bytes

  abbrev pub IsExcerpt : List Member → Str → Type 0
  IsExcerpt ms t =
      (m : Member) × Memᴰ m ms
      × (raw : Str) × TextOf m raw
      × (t ≡ excerpt m.name raw)
      × (length t ≤ length m.name + 8009)

  abbrev pub IsText : List Member → Str → Type 0
  IsText ms raw = (m : Member) × Memᴰ m ms × TextOf m raw

  abbrev pub Loaded : List Member → Option J → Type 0
  Loaded ms none = Unit
  Loaded ms (some v) = (raw : Str) × IsText ms raw × (parsers.loads raw ≡ some v)

  abbrev pub Version : List Member → Str → Type 0
  Version ms v =
      (v ≡ [])
      ⊎ (raw : Str) × IsText ms raw
        × (i : Option Str) × (parsers.description raw ≡ some (some v, i))

  abbrev pub Identifier : List Member → Str → Type 0
  Identifier ms i =
      (i ≡ [])
      ⊎ (raw : Str) × IsText ms raw
        × (v : Option Str) × (parsers.description raw ≡ some (v, some i))

  -- What is kept: at most `n` excerpts, and values that come of bounded texts of the members.
  pub record Within (ms : List Member) (n : ℕ) (out : Parsed J) : Type 0 where
    pub count : length out.extracted ≤ n
    pub excerpts : Each (IsExcerpt ms) out.extracted
    pub icon : IconWithin out.icon_data
    pub template : Loaded ms out.config_template
    pub manifest : Loaded ms out.dm_manifest
    pub version : Version ms out.oxt_version
    pub identifier : Identifier ms out.oxt_identifier

  pub Within-le :
      (all : List Member) {n k : ℕ} {out : Parsed J} → n ≤ k → Within all n out → Within all k out
  Within-le all le w = record {
    count = omega (arith, le, w.count);
    excerpts = w.excerpts;
    icon = w.icon;
    template = w.template;
    manifest = w.manifest;
    version = w.version;
    identifier = w.identifier;
  }

  pub with_excerpt-Within :
      (all : List Member) (m : Member) (raw : Str) (n : ℕ) (out : Parsed J)
      → Memᴰ m all
      → TextOf m raw
      → Within all n out
      → Within all (n + 1) (with_excerpt parsers m.name raw out)
  with_excerpt-Within all m raw n out i x w = record {
    count = omega (arith, w.count, length-append out.extracted (excerpt m.name raw ∷ []));
    excerpts = λ t h. elim (Memᴰ-append_cases out.extracted (excerpt m.name raw ∷ []) h) [
      | inl l ↦ w.excerpts t l
      | inr r ↦ elim r [
        | Memᴰ.head e ↦ (m, i, raw, x, e, rw e (length-excerpt m.name raw))
        | Memᴰ.tail k ↦ absurd (elim k [ ])
      ]
    ];
    icon = w.icon;
    template = w.template;
    manifest = w.manifest;
    version = w.version;
    identifier = w.identifier;
  }

  or_else-Version :
      (all : List Member) (raw old : Str) (v i : Option Str)
      → IsText all raw
      → parsers.description raw ≡ some (v, i)
      → Version all old
      → Version all (or_else v old)
  or_else-Version all raw old none i x e w = w
  or_else-Version all raw old (some v) i x e w = inr (raw, x, i, e)

  or_else-Identifier :
      (all : List Member) (raw old : Str) (v i : Option Str)
      → IsText all raw
      → parsers.description raw ≡ some (v, i)
      → Identifier all old
      → Identifier all (or_else i old)
  or_else-Identifier all raw old v none x e w = w
  or_else-Identifier all raw old v (some i) x e w = inr (raw, x, v, e)

  pub with_description-Within :
      (all : List Member) (raw : Str) (n : ℕ) (out : Parsed J)
      (o : Option (Option Str × Option Str))
      → IsText all raw
      → parsers.description raw ≡ o
      → Within all n out
      → Within all n (with_description parsers o out)
  with_description-Within all raw n out none x e w = w
  with_description-Within all raw n out (some (v, i)) x e w = record {
    count = w.count;
    excerpts = w.excerpts;
    icon = w.icon;
    template = w.template;
    manifest = w.manifest;
    version = or_else-Version all raw out.oxt_version v i x e w.version;
    identifier = or_else-Identifier all raw out.oxt_identifier v i x e w.identifier;
  }

  pub with_config-Within :
      (all : List Member) (raw : Str) (n : ℕ) (out : Parsed J) (o : Option J)
      → IsText all raw
      → parsers.loads raw ≡ o
      → Within all n out
      → Within all n (with_config parsers o out)
  with_config-Within all raw n out none x e w = w
  with_config-Within all raw n out (some v) x e w = record {
    count = w.count;
    excerpts = w.excerpts;
    icon = w.icon;
    template = (raw, x, e);
    manifest = w.manifest;
    version = w.version;
    identifier = w.identifier;
  }

  pub with_manifest-Within :
      (all : List Member) (raw : Str) (n : ℕ) (out : Parsed J) (o : Option J)
      → IsText all raw
      → parsers.loads raw ≡ o
      → Within all n out
      → Within all n (with_manifest parsers o out)
  with_manifest-Within all raw n out none x e w = w
  with_manifest-Within all raw n out (some v) x e w = record {
    count = w.count;
    excerpts = w.excerpts;
    icon = w.icon;
    template = w.template;
    manifest = (raw, x, e);
    version = w.version;
    identifier = w.identifier;
  }
