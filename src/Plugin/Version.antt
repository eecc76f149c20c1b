-- ===== src/Plugin/Version.antt =====
-- pkg/pluginapi/version.go.
pub mod RoundTrip
pub mod Order
use switch_manager.Base.{
  Bool, true, false, not, ◌&&◌, ◌||◌, List, [], ◌∷◌, ◌++◌, Option, none, some, ltb, is_empty,
  Result, ok, err, ◌>>=◌, ◌>>◌, fail_if, is_ok, if◌then◌else◌,
}
use switch_manager.Base.Text.{Text, split, byte_len}
use switch_manager.Base.Int.{ℤ, pos, negsuc, lt_int, le_int, eq_int}
use switch_manager.Base.Decimal.{atoi, show_int, leads_zero}

pub record Version : Type 0 where
  pub major : ℤ
  pub minor : ℤ
  pub patch : ℤ

pub data VersionError : Type 0 where
  wrong_shape bad_component negative_component zero_version : VersionError

-- `CurrentSDKVersion`.
abbrev pub current_sdk_version : Version
current_sdk_version = record { major = pos 1; minor = pos 0; patch = pos 0 }

abbrev pub is_negative : ℤ → Bool
is_negative n = lt_int n (pos 0)

-- `==` on versions.
abbrev pub version_eq : Version → Version → Bool
version_eq v w = eq_int v.major w.major && eq_int v.minor w.minor && eq_int v.patch w.patch

-- `Version.Validate`.
unfoldable pub version_validate : Version → Result VersionError (Unit {0})
version_validate v = do
  fail_if (is_negative v.major || is_negative v.minor || is_negative v.patch) negative_component
  fail_if (version_eq v (record { major = pos 0; minor = pos 0; patch = pos 0 })) zero_version

abbrev pub or_fail : Option ℤ → Result VersionError ℤ
or_fail none = err bad_component
or_fail (some n) = ok n

-- The loop body of `ParseVersion`.
unfoldable pub parse_component : Text → Result VersionError ℤ
parse_component part = do
  fail_if (is_empty part || ltb 1 (byte_len part) && leads_zero part) bad_component
  number ← or_fail (atoi part)
  fail_if (is_negative number) bad_component
  ok number

-- `ParseVersion` on the parts between the dots.
unfoldable pub parse_parts : List Text → Result VersionError Version
parse_parts (a ∷ b ∷ c ∷ []) = do
  major ← parse_component a
  minor ← parse_component b
  patch ← parse_component c
  let version : Version = record { major = major; minor = minor; patch = patch }
  version_validate version
  ok version
parse_parts parts = err wrong_shape

-- `ParseVersion`.
unfoldable pub parse_version : Text → Result VersionError Version
parse_version value = parse_parts (split b'.' value)

-- `Version.String`.
unfoldable pub version_text : Version → Text
version_text v = show_int v.major ++ b'.' ∷ (show_int v.minor ++ b'.' ∷ show_int v.patch)

-- The loop of `Compare`, from a component on: -1, 0 or 1.
abbrev pub compare_component : ℤ → ℤ → ℤ → ℤ
compare_component left right rest =
    if lt_int left right then negsuc 0 else if lt_int right left then pos 1 else rest

-- `Version.Compare`.
unfoldable pub compare : Version → Version → ℤ
compare v w =
    compare_component v.major w.major
      (compare_component v.minor w.minor (compare_component v.patch w.patch (pos 0)))

-- `Version.CompatibleWith`: whether this runtime can host a plugin built for `required`.
unfoldable pub compatible_with : Version → Version → Bool
compatible_with runtime required =
    is_ok (version_validate runtime)
    && is_ok (version_validate required)
    && eq_int runtime.major required.major
    && le_int (compare required runtime) (pos 0)
