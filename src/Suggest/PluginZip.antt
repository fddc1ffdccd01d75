-- ===== src/Suggest/PluginZip.antt =====
-- `parse_plugin_zip` of app/admin/suggest_utils.py: the files of a package that are of use, read
-- within bounds. The names of an archive are different. The decoding of UTF-8 and the parsers of JSON
-- and XML are parameters.
pub mod Kept
pub mod Bounds
use device_management.Prelude.Text.{split_on, starts_with}
use device_management.Suggest.{Checked, passed, http_exception}
use device_management.Prelude.{
  ℕ, ◌+◌, ◌-◌, ◌*◌, ◌/◌, refl, Bool, true, false, not, ◌&&◌, ◌||◌, Option, none, some, List, [],
  ◌∷◌, ◌++◌, map, arith, ltb, if◌then◌else◌, or_else, length, take, ◌==◌, nat_eq, string_eq,
  pair_eq, list_eq, Str, codes, lower, elem,
}

abbrev pub max_upload_bytes : ℕ
max_upload_bytes = 25 * 1024 * 1024

abbrev pub max_decompressed_bytes : ℕ
max_decompressed_bytes = 50 * 1024 * 1024

abbrev pub max_file_bytes : ℕ
max_file_bytes = 5 * 1024 * 1024

abbrev pub interesting_files : List Str
interesting_files = map codes (
    "manifest.json" ∷ "description.xml" ∷ "package.json" ∷ "readme.md" ∷ "readme.txt" ∷ "readme"
    ∷ "readme.rst" ∷ "notice-utilisateur.md" ∷ "notice-utilisateur.txt" ∷ "notice_utilisateur.md"
    ∷ "notice_utilisateur.txt" ∷ "changelog.md" ∷ "changelog.txt" ∷ "changes.md" ∷ "history.md"
    ∷ "dm-config.json" ∷ "dm_config.json" ∷ "dm-manifest.json" ∷ "dm_manifest.json" ∷ [])

abbrev pub icon_basenames : List Str
icon_basenames = map codes ("logo.png" ∷ "icon128.png" ∷ "icon48.png" ∷ [])

-- A member of an archive: the size that it declares, and its bytes, which are `none` where the
-- archive turns out to be damaged.
pub record Member : Type 0 where
  pub name : Str
  pub file_size : ℕ
  pub content : Option (List ℕ)

-- `errors="replace"` decodes every text; an XML text has a version and an identifier, or neither
pub record Parsers (J : Type 0) : Type 0 where
  pub decode : List ℕ → Str
  pub loads : Str → Option J
  pub description : Str → Option (Option Str × Option Str)

pub record Parsed (J : Type 0) : Type 0 where
  pub extracted : List Str
  pub dm_manifest : Option J
  pub has_readme : Bool
  pub has_manifest : Bool
  pub has_config_template : Bool
  pub config_template : Option J
  pub oxt_version : Str
  pub oxt_identifier : Str
  pub icon_data : Option (List ℕ)
  pub icon_filename : Option Str

abbrev pub nothing_parsed : {J : Type 0} → Parsed J
nothing_parsed = record {
  extracted = [];
  dm_manifest = none;
  has_readme = false;
  has_manifest = false;
  has_config_template = false;
  config_template = none;
  oxt_version = [];
  oxt_identifier = [];
  icon_data = none;
  icon_filename = none;
}

abbrev pub last_part : List Str → Str
last_part [] = []
last_part (s ∷ []) = s
last_part (s ∷ t ∷ ss) = last_part (t ∷ ss)

-- `name.rsplit("/", 1)[-1].lower()`
unfoldable pub basename : Str → Str
basename name = lower (last_part (split_on b'/' name))

-- `needle in s`
unfoldable pub contains : Str → Str → Bool
contains needle [] = starts_with needle []
contains needle (c ∷ s) = starts_with needle (c ∷ s) || contains needle s

-- What a read gives: bytes, the exception 413, or the end on a damaged archive.
pub data Read : Type 0 where
  bytes : List ℕ → Read
  too_large damaged : Read

abbrev pub read_content : Option (List ℕ) → Read
read_content none = damaged
read_content (some b) = bytes (take max_file_bytes b)

unfoldable pub read_zip_member : Member → Read
read_zip_member m = if ltb max_file_bytes m.file_size then too_large else read_content m.content

-- `f"--- {name} ---\\n{raw[:8000]}"`
unfoldable pub excerpt : Str → Str → Str
excerpt name raw = codes "--- " ++ (name ++ (codes " ---" ++ 10 ∷ take 8000 raw))

-- what a file is to the reader, by its name
pub data FileKind : Type 0 where
  icon config manifest description other useless : FileKind

unfoldable pub kind_of : Str → FileKind
unfolding basename contains
kind_of name =
    let base = basename name in
    if elem base icon_basenames && contains (codes "assets/") (lower name)
    then icon
    else if not (elem base interesting_files)
    then useless
    else if elem base (codes "dm-config.json" ∷ codes "dm_config.json" ∷ [])
    then config
    else if elem base (codes "dm-manifest.json" ∷ codes "dm_manifest.json" ∷ [])
    then manifest
    else if base == codes "description.xml"
    then description
    else other

-- what becomes of the loop after a member
pub data Outcome (J : Type 0) : Type 0 where
  goes_on : ℕ → Parsed J → Outcome J
  ends : Parsed J → Outcome J
  refuses : Outcome J

module _ {J : Type 0} (parsers : Parsers J) where
  abbrev pub with_config : Option J → Parsed J → Parsed J
  with_config none out = out
  with_config (some v) out = record out { config_template = some v; has_config_template = true }

  abbrev pub with_manifest : Option J → Parsed J → Parsed J
  with_manifest none out = out
  with_manifest (some v) out = record out { dm_manifest = some v; has_manifest = true }

  abbrev pub with_description : Option (Option Str × Option Str) → Parsed J → Parsed J
  with_description none out = out
  with_description (some (version, identifier)) out = record out {
    oxt_version = or_else version out.oxt_version;
    oxt_identifier = or_else identifier out.oxt_identifier;
  }

  abbrev pub with_excerpt : Str → Str → Parsed J → Parsed J
  with_excerpt name raw out = record out { extracted = out.extracted ++ excerpt name raw ∷ [] }

  abbrev pub is_readme : Str → Bool
  is_readme base = starts_with (codes "readme") base || starts_with (codes "notice") base

  -- what a file adds
  unfoldable pub add_file : FileKind → Str → Str → Parsed J → Parsed J
  unfolding excerpt basename
  add_file config name raw out = with_config (parsers.loads raw) out
  add_file manifest name raw out = with_manifest (parsers.loads raw) out
  add_file description name raw out =
      with_excerpt name raw (with_description (parsers.description raw) out)
  add_file other name raw out = record (with_excerpt name raw out) {
    has_readme = out.has_readme || is_readme (basename name);
  }
  add_file _ name raw out = out

  abbrev pub with_icon : Str → List ℕ → Parsed J → Parsed J
  with_icon name b out = record out { icon_data = some b; icon_filename = some (basename name) }

  abbrev pub with_text : FileKind → Str → Str → ℕ → Parsed J → Outcome J
  with_text kind name raw total out =
      if ltb max_decompressed_bytes (total + length raw)
      then ends out
      else goes_on (total + length raw) (add_file kind name raw out)

  abbrev pub with_read : FileKind → Str → Read → ℕ → Parsed J → Outcome J
  with_read kind name too_large total out = refuses
  with_read kind name damaged total out = ends out
  with_read icon name (bytes b) total out = goes_on total (with_icon name b out)
  with_read kind name (bytes b) total out = with_text kind name (parsers.decode b) total out

  -- a member of the archive, with the length of the texts that were read before it
  unfoldable pub read_member : Member → ℕ → Parsed J → Outcome J
  unfolding read_zip_member add_file kind_of
  read_member m total out = elim (kind_of m.name) [
    | useless ↦ goes_on total out
    | kind ↦ with_read kind m.name (read_zip_member m) total out
  ]

  unfoldable pub read_members : List Member → ℕ → Parsed J → Checked (Parsed J)
  unfolding read_member
  read_members [] total out = passed out
  read_members (m ∷ ms) total out = elim (read_member m total out) [
    | goes_on read parsed ↦ read_members ms read parsed
    | ends parsed ↦ passed parsed
    | refuses ↦ http_exception 413
  ]

  abbrev pub declared : List Member → ℕ
  declared [] = 0
  declared (m ∷ ms) = m.file_size + declared ms

  abbrev pub read_archive : Option (List Member) → Checked (Parsed J)
  read_archive none = passed nothing_parsed
  read_archive (some ms) =
      if ltb max_decompressed_bytes (declared ms)
      then http_exception 413
      else read_members ms 0 nothing_parsed

  -- `archive` is `none` where the bytes are no archive
  unfoldable pub parse_plugin_zip : ℕ → Option (List Member) → Checked (Parsed J)
  unfolding read_members
  parse_plugin_zip upload_bytes archive =
      if ltb max_upload_bytes upload_bytes then http_exception 413 else read_archive archive
