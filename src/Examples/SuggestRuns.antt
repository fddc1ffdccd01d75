-- ===== src/Examples/SuggestRuns.antt =====
-- An answer of a language model, requests within a limit, and a package with a readme.
use device_management.Prelude.Dict
use device_management.Prelude.Dict.{Dict}
use device_management.Prelude.Text.{split_on}
use device_management.Suggest.{Loaded, object, Value, text, sanitize_suggestion, is_allowed}
use device_management.Suggest.Sanitized.{IsHarmless, sanitize_suggestion-IsHarmless}
use device_management.Suggest.RateLimit.{passed_times}
use device_management.Suggest.RateLimit.Window.{counted, passed_times-bounded}
use device_management.Suggest.PluginZip.{
  Member, Parsers, Parsed, nothing_parsed, excerpt, parse_plugin_zip, declared, max_upload_bytes,
  max_decompressed_bytes,
}
use device_management.Suggest.PluginZip.Kept.{Within}
use device_management.Suggest.PluginZip.Bounds.{parse_plugin_zip-bounded}
use device_management.Prelude.{
  length, ℕ, ◌≤◌, ◌≡◌, refl, Bool, true, Option, none, some, List, [], ◌∷◌, arith, if◌then◌else◌,
  ◌==◌, nat_eq, string_eq, pair_eq, pos, list_eq, Str, codes,
}

abbrev suggestion : Dict Str (Value Bool)
suggestion =
    (codes "icon_url", text (codes "javascript:alert(1)"))
    ∷ (codes "homepage_url", text (codes " https://a.fr"))
    ∷ []

abbrev no_address : Value Bool
no_address = text []

sanitize_suggestion-IsHarmless_example :
    (s : Str) × (no_address ≡ text s) × (IsHarmless s × (is_allowed (codes "icon_url") ≡ true))
unfolding Dict.get sanitize_suggestion
sanitize_suggestion-IsHarmless_example =
    sanitize_suggestion-IsHarmless suggestion (codes "icon_url") (refl, (refl, tt)) refl refl

-- a JSON parser that knows one object
abbrev loads : Str → Option (Loaded ℕ)
loads s = if s == codes "{}" then some (object 7) else none

abbrev calls : List (Str × ℕ)
calls = (codes "a", 10) ∷ (codes "a", 11) ∷ (codes "b", 12) ∷ (codes "a", 20) ∷ (codes "a", 75) ∷ []

passed_times-bounded_example : counted 60 80 (passed_times (pos 2) 60 (codes "a") calls [] []).1 ≤ 2
passed_times-bounded_example =
    passed_times-bounded 60 2 (omega arith) (codes "a") calls 80
      (omega arith, (omega arith, (omega arith, (omega arith, (omega arith, tt))))) (omega arith)

abbrev members : List Member
members =
    record { name = codes "doc/README.md"; file_size = 5; content = some (codes "Hello") } ∷ []

abbrev parsers : Parsers ℕ
parsers = record { decode = λ b. b; loads = λ s. none; description = λ s. none }

abbrev readme_parsed : Parsed ℕ
readme_parsed = record nothing_parsed {
  extracted = excerpt (codes "doc/README.md") (codes "Hello") ∷ [];
  has_readme = true;
}

parse_plugin_zip-bounded_example :
    (1000 ≤ max_upload_bytes)
    × ((declared parsers members ≤ max_decompressed_bytes)
        × Within parsers members (length members) readme_parsed)
unfolding parse_plugin_zip split_on
parse_plugin_zip-bounded_example = parse_plugin_zip-bounded parsers 1000 members refl
