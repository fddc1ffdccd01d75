-- ===== src/Version/Variants.antt =====
-- Platform variants by version.
use device_management.Version.{
  Variant, tb60, tb78, tb128, mv, tuple_lt, parse_version_tuple, version_lt, tb_variant,
  infer_platform_variant,
}
use device_management.Version.Order.{tuple_lt_trans}
use device_management.Prelude.{
  ℕ, ◌≤◌, String, ◌≡◌, true, Option, none, some, List, [], ◌∷◌, arith, nat_eq, string_eq, pair_eq,
  ℤ, pos,
}

abbrev pub rank : Option Variant → ℕ
rank none = 0
rank (some tb60) = 1
rank (some tb78) = 2
rank (some tb128) = 3
rank (some (mv n)) = 0

tb_variant_mono :
    (v w : List ℤ) → tuple_lt v w ≡ true → rank (some (tb_variant v)) ≤ rank (some (tb_variant w))
unfolding tb_variant
tb_variant_mono v w h = ground (
  arith,
  tuple_lt_trans v w (pos 78 ∷ pos 0 ∷ pos 0 ∷ []) h,
  tuple_lt_trans v w (pos 128 ∷ pos 0 ∷ pos 0 ∷ []) h,
)

-- A newer Thunderbird never gets an older package: where one version text is below another, the
-- variant inferred for the first is not above the variant inferred for the second. The variants
-- are ordered tb60, tb78, tb128, and the manifest versions have no influence.
pub infer_platform_variant_mono :
    (v w : String) (m n : Option ℤ)
    → version_lt v w ≡ true
    → rank (infer_platform_variant "thunderbird" v m)
      ≤ rank (infer_platform_variant "thunderbird" w n)
unfolding infer_platform_variant version_lt
infer_platform_variant_mono v w m n h =
    tb_variant_mono (parse_version_tuple v) (parse_version_tuple w) h
