-- ===== src/Suggest/PluginZip/Bounds.antt =====
-- How much a package can make the reader keep.
use device_management.Suggest.{Checked, passed, http_exception}
use device_management.Suggest.PluginZip.{
  max_upload_bytes, max_decompressed_bytes, Member, Parsers, Parsed, nothing_parsed, Read, bytes,
  too_large, damaged, read_zip_member, FileKind, icon, config, manifest, description, other,
  useless, kind_of, Outcome, goes_on, ends, refuses, with_description, add_file, with_text,
  with_read, read_member, read_members, declared, parse_plugin_zip,
}
use device_management.Prelude.{
  ℕ, ◌+◌, ◌≤◌, ◌≡◌, refl, subst, inl, inr, some, List, [], ◌∷◌, Memᴰ, arith, ltb, Bool-cases,
  length, Each, nat_eq, string_eq, pair_eq, list_eq, Str,
}
use device_management.Suggest.PluginZip.Kept.{
  TextOf, Within, Within-le, read_zip_member-le, with_excerpt-Within, with_description-Within,
  with_config-Within, with_manifest-Within,
}

passed_inj : {A : Type 0} {a b : A} → passed a ≡ passed b → a ≡ b
passed_inj e = cc

module _ {J : Type 0} (parsers : Parsers J) where
  add_file-Within :
      (all : List Member) (kind : FileKind) (m : Member) (raw : Str) (n : ℕ) (out : Parsed J)
      → Memᴰ m all
      → TextOf parsers m raw
      → Within parsers all n out
      → Within parsers all (n + 1) (add_file parsers kind m.name raw out)
  unfolding add_file
  add_file-Within all config m raw n out i x w =
      Within-le parsers all (omega arith)
        (with_config-Within parsers all raw n out (parsers.loads raw) (m, i, x) refl w)
  add_file-Within all manifest m raw n out i x w =
      Within-le parsers all (omega arith)
        (with_manifest-Within parsers all raw n out (parsers.loads raw) (m, i, x) refl w)
  add_file-Within all description m raw n out i x w =
      with_excerpt-Within parsers all m raw n
        (with_description parsers (parsers.description raw) out) i x
        (with_description-Within parsers all raw n out (parsers.description raw) (m, i, x) refl w)
  add_file-Within all other m raw n out i x w =
      let e = with_excerpt-Within parsers all m raw n out i x w in
      record {
        count = e.count;
        excerpts = e.excerpts;
        icon = e.icon;
        template = e.template;
        manifest = e.manifest;
        version = e.version;
        identifier = e.identifier;
      }
  add_file-Within all icon m raw n out i x w = Within-le parsers all (omega arith) w
  add_file-Within all useless m raw n out i x w = Within-le parsers all (omega arith) w

  -- what holds of a parsed package, however the loop goes on
  abbrev Holds : List Member → ℕ → Outcome J → Type 0
  Holds all n (goes_on total out) = Within parsers all n out
  Holds all n (ends out) = Within parsers all n out
  Holds all n refuses = Unit

  with_text-Within :
      (all : List Member) (kind : FileKind) (m : Member) (b : List ℕ) (total n : ℕ) (out : Parsed J)
      → read_zip_member m ≡ bytes b
      → Memᴰ m all
      → Within parsers all n out
      → Holds all (n + 1) (with_text parsers kind m.name (parsers.decode b) total out)
  with_text-Within all kind m b total n out r i w =
      elim (Bool-cases (ltb max_decompressed_bytes (total + length (parsers.decode b)))) [
        | inl e ↦ rw e (Within-le parsers all (omega arith) w)
        | inr e ↦ rw e (
            add_file-Within all kind m (parsers.decode b) n out i
              (record {
                content = b;
                read = r;
                file = read_zip_member-le m r;
                decoded = refl;
                text = ground (arith, e);
              })
              w)
      ]

  with_read-Within :
      (all : List Member) (kind : FileKind) (m : Member) (r : Read) (total n : ℕ) (out : Parsed J)
      → ((b : List ℕ) → r ≡ bytes b → read_zip_member m ≡ bytes b)
      → Memᴰ m all
      → Within parsers all n out
      → Holds all (n + 1) (with_read parsers kind m.name r total out)
  with_read-Within all kind m too_large total n out s i w = tt
  with_read-Within all kind m damaged total n out s i w = Within-le parsers all (omega arith) w
  with_read-Within all icon m (bytes b) total n out s i w = record {
    count = omega (arith, w.count);
    excerpts = w.excerpts;
    icon = read_zip_member-le m (s b refl);
    template = w.template;
    manifest = w.manifest;
    version = w.version;
    identifier = w.identifier;
  }
  with_read-Within all config m (bytes b) total n out s i w =
      with_text-Within all config m b total n out (s b refl) i w
  with_read-Within all manifest m (bytes b) total n out s i w =
      with_text-Within all manifest m b total n out (s b refl) i w
  with_read-Within all description m (bytes b) total n out s i w =
      with_text-Within all description m b total n out (s b refl) i w
  with_read-Within all other m (bytes b) total n out s i w =
      with_text-Within all other m b total n out (s b refl) i w
  with_read-Within all useless m (bytes b) total n out s i w =
      with_text-Within all useless m b total n out (s b refl) i w

  read_member-Within :
      (all : List Member) (m : Member) (total n : ℕ) (out : Parsed J)
      → Memᴰ m all
      → Within parsers all n out
      → Holds all (n + 1) (read_member parsers m total out)
  unfolding read_member
  read_member-Within all m total n out i w = by_kind (kind_of m.name)
    where
      read :
          (k : FileKind)
          → Holds all (n + 1) (with_read parsers k m.name (read_zip_member m) total out)
      read k = with_read-Within all k m (read_zip_member m) total n out (λ b e. e) i w

      by_kind :
          (k : FileKind)
          → Holds all (n + 1) (elim k [
            | useless ↦ goes_on total out
            | kind ↦ with_read parsers kind m.name (read_zip_member m) total out
          ])
      by_kind useless = Within-le parsers all (omega arith) w
      by_kind icon = read icon
      by_kind config = read config
      by_kind manifest = read manifest
      by_kind description = read description
      by_kind other = read other

  read_members-Within :
      (all ms : List Member) (total n : ℕ) (out : Parsed J) {result : Parsed J}
      → Each (λ (m : Member). Memᴰ m all) ms
      → Within parsers all n out
      → read_members parsers ms total out ≡ passed result
      → Within parsers all (n + length ms) result
  unfolding read_members
  read_members-Within all [] total n out i w h =
      Within-le parsers all (omega arith) (subst (Within parsers all n) (passed_inj h) w)
  read_members-Within all (m ∷ ms) total n out {result} i w h =
      Within-le parsers all (omega arith) (
        after (read_member parsers m total out)
          (read_member-Within all m total n out (i m (Memᴰ.head refl)) w)
          (λ t o v q. read_members-Within all ms t (n + 1) o (λ x k. i x (Memᴰ.tail k)) v q) h)
    where
      after :
          (r : Outcome J)
          → Holds all (n + 1) r
          → ((t : ℕ) (o : Parsed J)
              → Within parsers all (n + 1) o
              → read_members parsers ms t o ≡ passed result
              → Within parsers all (n + 1 + length ms) result)
          → (elim r as (λ x. Checked (Parsed J)) [
            | goes_on read parsed ↦ read_members parsers ms read parsed
            | ends parsed ↦ passed parsed
            | refuses ↦ http_exception 413
          ])
            ≡ passed result
          → Within parsers all (n + 1 + length ms) result
      after (goes_on t o) v ih q = ih t o v q
      after (ends o) v ih q =
          Within-le parsers all (omega arith) (subst (Within parsers all (n + 1)) (passed_inj q) v)
      after refuses v ih q = absurd (cc)

  -- A package that is read at all is within the bound on uploads and declares no more than the
  -- bound on its files together. Whatever sizes its files really have, what is kept is: no more
  -- excerpts than it has files, each of at most 8009 characters more than its file's name; an icon
  -- within the bound on a file; and a template, a manifest, a version and an identifier that are
  -- absent or come of a text whose bytes are within the bound on a file, and whose characters are
  -- within the bound on all files together.
  pub parse_plugin_zip-bounded :
      (upload_bytes : ℕ) (ms : List Member) {out : Parsed J}
      → parse_plugin_zip parsers upload_bytes (some ms) ≡ passed out
      → (upload_bytes ≤ max_upload_bytes)
        × ((declared parsers ms ≤ max_decompressed_bytes) × Within parsers ms (length ms) out)
  unfolding parse_plugin_zip
  parse_plugin_zip-bounded upload_bytes ms {out} h =
      elim (Bool-cases (ltb max_upload_bytes upload_bytes)) [
        | inl e ↦ absurd (refused (rw e at h))
        | inr e ↦ elim (Bool-cases (ltb max_decompressed_bytes (declared parsers ms))) [
          | inl d ↦ absurd (refused (rw (e, d) at h))
          | inr d ↦ (
            ground (arith, e),
            (
              ground (arith, d),
              Within-le parsers ms (omega arith) (
                  read_members-Within ms ms 0 0 nothing_parsed (λ m k. k)
                    (record {
                      count = omega arith;
                      excerpts = λ t n. elim n [ ];
                      icon = tt;
                      template = tt;
                      manifest = tt;
                      version = inl refl;
                      identifier = inl refl;
                    })
                    (rw (e, d) at h)),
            ),
          )
        ]
      ]
    where
      refused : http_exception 413 ≡ passed out → ⊥
      refused q = cc
