-- ===== src/Version.antt =====
-- vscode-dotnet-runtime-library/src/Acquisition/VersionUtilities.ts: taking versions apart and
-- telling their kinds. `x.split('.')[i]` is `none` out of range, as `undefined` is.
pub mod Parts
pub mod Kinds
use vscode_dotnet_runtime.Prelude.{
  ℕ, suc, ◌+◌, ◌-◌, Bool, true, false, ◌&&◌, ◌||◌, not, Option, none, some, List, [], ◌∷◌, ◌++◌,
  ltb, leb, ◌==◌, if◌then◌else◌, length, get_elem?, get_or, take, drop, every, Result, ok, throw,
  ◌>>=◌, dotnet_version_resolution, dotnet_feature_band_does_not_exist,
  dotnet_invalid_runtime_patch_version,
}
use vscode_dotnet_runtime.Text.{Text, codes, ◌===◌, split, includes_code, ends_with_code}
use vscode_dotnet_runtime.Text.Number.{is_nan, to_number}

-- StringConstants.ts
abbrev pub bad_version : Text
bad_version = codes "0.0"

abbrev pub parts : Text → List Text
parts version = split b'.' version

-- A string is a condition: the empty one is false.
abbrev pub is_set : Text → Bool
is_set [] = false
is_set (x ∷ xs) = true

unfoldable pub is_number : Text → Bool
is_number value = is_set value && not (is_nan (to_number value))

unfoldable pub get_major_minor_from_valid_version : Text → Text
get_major_minor_from_valid_version version =
    if ltb (length (parts version)) 2
    then bad_version
    else get_or (parts version) 0 [] ++ b'.' ∷ get_or (parts version) 1 []

unfoldable pub get_major_minor : Text → Result Text
unfolding get_major_minor_from_valid_version
get_major_minor version =
    if ltb (length (parts version)) 2
    then if length (parts version) == 1 && is_number version
      then ok (version ++ codes ".0")
      else throw dotnet_version_resolution
    else ok (get_major_minor_from_valid_version version)

unfoldable pub get_major : Text → Result Text
get_major version = do major_minor ← get_major_minor version; ok (get_or (parts major_minor) 0 [])

unfoldable pub get_minor : Text → Result Text
get_minor version = do major_minor ← get_major_minor version; ok (get_or (parts major_minor) 1 [])

-- What a missing band gives: an error, or the empty string.
abbrev no_band : Bool → Result Text
no_band consider_error_if_no_band =
    if consider_error_if_no_band then throw dotnet_feature_band_does_not_exist else ok []

unfoldable pub get_feature_band_from_version : Text → Bool → Result Text
get_feature_band_from_version version consider_error_if_no_band =
    elim (get_elem? (parts version) 2) [
      | none ↦ no_band consider_error_if_no_band
      | some third ↦ ok (take 1 third)
    ]

unfoldable pub get_sdk_feature_band_or_patch_from_fully_specified_version : Text → Text
get_sdk_feature_band_or_patch_from_fully_specified_version version =
    elim (get_elem? (parts version) 2) [
      | none ↦ []
      | some third ↦ get_or (split b'-' (drop 1 third)) 0 []
    ]

unfoldable pub get_sdk_patch_version_string : Text → Bool → Result Text
unfolding get_sdk_feature_band_or_patch_from_fully_specified_version
get_sdk_patch_version_string version consider_error_if_no_band =
    let patch = get_sdk_feature_band_or_patch_from_fully_specified_version version in
    if not (is_set patch) || not (is_number patch)
    then no_band consider_error_if_no_band
    else ok patch

-- `catch` gives null.
abbrev caught : Result Text → Option Text
caught (ok t) = some t
caught (throw _) = none

unfoldable pub get_sdk_complete_band_and_patch_version_string : Text → Option Text
unfolding get_feature_band_from_version get_sdk_patch_version_string
get_sdk_complete_band_and_patch_version_string version = caught (
    get_feature_band_from_version version false >>= λ band.
    get_sdk_patch_version_string version false >>= λ patch. ok (band ++ patch))

unfoldable pub get_runtime_patch_version_string : Text → Result (Option Text)
get_runtime_patch_version_string version = elim (get_elem? (parts version) 2) [
  | none ↦ ok none
  | some third ↦
      let patch = get_or (split b'-' third) 0 [] in
      if is_set patch && not (is_number patch)
      then throw dotnet_invalid_runtime_patch_version
      else ok (if is_set patch then some patch else none)
]

unfoldable pub is_preview_version : Text → Bool
is_preview_version version = includes_code version b'-'

unfoldable pub is_non_specific_feature_banded_version : Text → Bool
is_non_specific_feature_banded_version version =
    every is_number (take 2 (parts version))
    && ends_with_code version b'x'
    && length (parts version) - 1 == 2

-- The two calls of the patch in the source read the same version and give the same answer.
unfoldable pub is_valid_long_form_version_format : Text → Result Bool
is_valid_long_form_version_format version =
    if length (parts version) - 1 == 2 && ltb (length version) 11
    then if is_non_specific_feature_banded_version version
      then ok true
      else (get_sdk_patch_version_string version true >>= λ patch.
          ok (leb (length patch) 2 && ltb 1 (length patch)))
    else ok false

unfoldable pub is_fully_specified_version : Text → Result Bool
unfolding is_valid_long_form_version_format
is_fully_specified_version version =
    if every is_number (parts version)
    then (is_valid_long_form_version_format version >>= λ valid.
        ok (valid && not (is_non_specific_feature_banded_version version)))
    else ok false

unfoldable pub is_non_specific_major_or_major_minor_version : Text → Bool
is_non_specific_major_or_major_minor_version version =
    is_number version && ltb (length (parts version) - 1) 2

unfoldable pub convert_to_linux_package_manager_supported_version : Text → Result Text
convert_to_linux_package_manager_supported_version version =
    if is_non_specific_major_or_major_minor_version version
    then (get_major_minor version >>= λ major_minor. ok (major_minor ++ codes ".1xx"))
    else ok version
