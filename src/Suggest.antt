-- ===== src/Suggest.antt =====
-- app/admin/suggest_utils.py: what hardens `POST /admin/api/catalog/suggest`, which asks a language
-- model for the fields of a plugin's page. Here are the check of addresses, the reading of the
-- model's answer and the filter on its fields; RateLimit has the limit on requests and PluginZip
-- the reading of packages. Exceptions are the values of `Checked`.
pub mod RateLimit
pub mod PluginZip
pub mod Sanitized
pub mod Extracted
use device_management.Prelude.Dict
use device_management.Prelude.Dict.{Dict}
use device_management.Prelude.Text.{lstrip, nonempty, starts_with, cons_first}
use device_management.Prelude.{
  ℕ, zero, suc, ◌/◌, refl, Bool, true, false, not, ◌&&◌, ◌||◌, Option, none, some, List, [], ◌∷◌,
  map, arith, if◌then◌else◌, any, ◌==◌, nat_eq, string_eq, pair_eq, list_eq, Str, codes, lower,
  strip, elem,
}

-- `HTTPException` with its status, and `ValueError`
pub data Checked (A : Type 0) : Type 0 where
  passed : A → Checked A
  http_exception : ℕ → Checked A
  value_error : Checked A

-- what `urlparse` gives of a text
pub record ParsedUrl : Type 0 where
  pub scheme : Str
  pub hostname : Str
  pub port : Option ℕ

-- what `ipaddress` says of an address
pub record IpAddress : Type 0 where
  pub is_private : Bool
  pub is_loopback : Bool
  pub is_link_local : Bool
  pub is_multicast : Bool
  pub is_reserved : Bool
  pub is_unspecified : Bool

-- `urlparse` and `getaddrinfo`, whose failure is `none`
pub record Network : Type 0 where
  pub urlparse : Str → ParsedUrl
  pub getaddrinfo : Str → ℕ → Option (List IpAddress)

abbrev pub is_internal : IpAddress → Bool
is_internal ip =
    ip.is_private || ip.is_loopback || ip.is_link_local || ip.is_multicast || ip.is_reserved
    || ip.is_unspecified

abbrev pub default_port : ParsedUrl → ℕ
default_port u = if u.scheme == codes "https" then 443 else 80

-- `parsed.port or …`
abbrev pub port_of : ParsedUrl → ℕ
port_of u = elim u.port [ none ↦ default_port u | some p ↦ if p == 0 then default_port u else p ]

abbrev pub check_addresses : Str → Option (List IpAddress) → Checked Str
check_addresses raw none = http_exception 400
check_addresses raw (some infos) = if any is_internal infos then http_exception 400 else passed raw

unfoldable pub validate_public_url : Network → Str → Checked Str
validate_public_url net url =
    let raw = strip url in
    let parsed = net.urlparse raw in
    if not (elem parsed.scheme (codes "http" ∷ codes "https" ∷ []))
    then http_exception 400
    else if not (nonempty parsed.hostname)
    then http_exception 400
    else check_addresses raw (net.getaddrinfo parsed.hostname (port_of parsed))

-- `text.split("```")`, where the fence is three characters 96
unfoldable pub split_fence : Str → List Str
split_fence [] = [] ∷ []
split_fence (c ∷ []) = (c ∷ []) ∷ []
split_fence (c ∷ d ∷ []) = (c ∷ d ∷ []) ∷ []
split_fence (c ∷ d ∷ e ∷ s) =
    let cut = [] ∷ split_fence s in
    let rest = cons_first c (split_fence (d ∷ e ∷ s)) in
    if c == 96 && (d == 96 && e == 96) then cut else rest

-- what `json.loads` gives: an object, or something else
pub data Loaded (P : Type 0) : Type 0 where
  object : P → Loaded P
  not_object : Loaded P

-- from the first brace that opens
unfoldable pub from_brace : Str → Option Str
from_brace [] = none
from_brace (c ∷ s) = if c == b'{' then some s else from_brace s

-- up to the last brace that closes
unfoldable pub up_to_brace : Str → Option Str
up_to_brace [] = none
up_to_brace (c ∷ s) = elim (up_to_brace s) [
  | some r ↦ some (c ∷ r)
  | none ↦ if c == b'}' then some (c ∷ []) else none
]

-- the match of the expression `\{.*\}`, the longest at the first place
unfoldable pub braces : Str → Option Str
unfolding from_brace up_to_brace
braces s = elim (from_brace s) [
  | none ↦ none
  | some rest ↦ elim (up_to_brace rest) [ none ↦ none | some r ↦ some (b'{' ∷ r) ]
]

abbrev pub drop : ℕ → Str → Str
drop zero s = s
drop (suc n) [] = []
drop (suc n) (c ∷ s) = drop n s

abbrev pub untagged : Str → Str
untagged candidate =
    if starts_with (codes "json") (lower (lstrip candidate))
    then strip (drop 4 (lstrip candidate))
    else strip candidate

-- the text between the first fences, or the whole text; the second part is `parts[1]`, and
-- `parts[-1]` where there are two
abbrev pub chosen_part : Str → List Str → Str
chosen_part text (p ∷ q ∷ ps) = untagged q
chosen_part text _ = text

abbrev pub as_object : {P : Type 0} → Option (Loaded P) → Checked P
as_object (some (object d)) = passed d
as_object (some not_object) = value_error
as_object none = value_error

module _ {P : Type 0} (loads : Str → Option (Loaded P)) where
  abbrev pub load_or_search : Str → Option (Loaded P) → Checked P
  load_or_search text (some v) = as_object (some v)
  load_or_search text none = elim (braces text) [
    | none ↦ value_error
    | some m ↦ as_object (loads m)
  ]

  abbrev pub load_text : Str → Checked P
  load_text text = load_or_search text (loads text)

  unfoldable pub extract_suggestion_json : Str → Checked P
  unfolding split_fence braces
  extract_suggestion_json content =
      if nonempty (strip content)
      then load_text (chosen_part (strip content) (split_fence (strip content)))
      else value_error

-- a field of a suggestion: a text, or something else
pub data Value (P : Type 0) : Type 0 where
  text : Str → Value P
  other : P → Value P

abbrev pub allowed_suggestion_keys : List Str
allowed_suggestion_keys = map codes (
    "slug" ∷ "name" ∷ "description" ∷ "intent" ∷ "device_type" ∷ "category" ∷ "publisher"
    ∷ "visibility" ∷ "homepage_url" ∷ "support_email" ∷ "icon_url" ∷ "doc_url" ∷ "license"
    ∷ "key_features" ∷ "changelog" ∷ "oxt_version" ∷ "oxt_identifier" ∷ "config_template"
    ∷ "_has_readme" ∷ "_has_manifest" ∷ "_has_config_template" ∷ "_source" ∷ "icon_data_url" ∷ [])

abbrev pub url_fields : List Str
url_fields = map codes ("homepage_url" ∷ "icon_url" ∷ "doc_url" ∷ "icon_data_url" ∷ [])

unfoldable pub is_allowed : Str → Bool
is_allowed k = elem k allowed_suggestion_keys

unfoldable pub is_url_field : Str → Bool
is_url_field k = elem k url_fields

abbrev pub is_safe_url : Str → Bool
is_safe_url v =
    starts_with (codes "data:image/") (lower v)
    || (starts_with (codes "http://") (lower v) || starts_with (codes "https://") (lower v))

abbrev pub safe_text : Str → Str
safe_text v = if is_safe_url v then v else []

unfoldable pub safe_url_value : {P : Type 0} → Value P → Str
safe_url_value (text s) = safe_text (strip s)
safe_url_value (other p) = []

abbrev pub cleaned_value : {P : Type 0} → Str → Value P → Value P
cleaned_value k v = if is_url_field k then text (safe_url_value v) else v

-- the fields of a JSON object, each key once
unfoldable pub sanitize_suggestion : {P : Type 0} → Dict Str (Value P) → Dict Str (Value P)
unfolding safe_url_value is_allowed is_url_field
sanitize_suggestion [] = []
sanitize_suggestion ((k, v) ∷ fields) =
    let rest = sanitize_suggestion fields in
    if is_allowed k then (k, cleaned_value k v) ∷ rest else rest
