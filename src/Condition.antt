-- ===== src/Condition.antt =====
-- vscode-dotnet-runtime-library/src/Acquisition/DotnetConditionValidator.ts: whether an available
-- .NET meets a request. The list that `DotnetResolver` reads from `dotnet` is an argument.
pub mod Decision
pub mod Runtime
pub mod Fits
pub mod Accepted
use vscode_dotnet_runtime.Prelude.{
  ℕ, Bool, true, false, ◌&&◌, ◌||◌, not, Option, none, some, List, [], ◌∷◌, if◌then◌else◌, Result,
  ok, throw, ◌>>=◌,
}
use vscode_dotnet_runtime.Text.{Text, codes, ◌===◌}
use vscode_dotnet_runtime.Text.Number.{
  JsNumber, of_ℕ, is_truthy, less_or_equal, same_number, to_number,
}
use vscode_dotnet_runtime.Version.{
  is_set, get_major, get_minor, get_feature_band_from_version,
  get_sdk_complete_band_and_patch_version_string, get_runtime_patch_version_string,
  is_preview_version,
}
use vscode_dotnet_runtime.Install.{
  DotnetInstallMode, sdk, runtime, aspnetcore, Architecture, null, undefined, named, same_mode,
  DotnetInstall,
}

-- DotnetVersionSpecRequirement.ts
pub data DotnetVersionSpecRequirement : Type 0 where
  equal : DotnetVersionSpecRequirement
  greater_than_or_equal : DotnetVersionSpecRequirement
  less_than_or_equal : DotnetVersionSpecRequirement
  latest_patch : DotnetVersionSpecRequirement
  latest_feature : DotnetVersionSpecRequirement
  latest_major : DotnetVersionSpecRequirement
  disable : DotnetVersionSpecRequirement

-- `IDotnetFindPathContext` with the fields of its `acquireContext` that are read here.
pub record FindPathContext : Type 0 where
  pub version : Text
  pub mode : Option DotnetInstallMode
  pub architecture : Architecture
  pub version_spec_requirement : DotnetVersionSpecRequirement
  pub reject_previews : Bool

-- `IDotnetListInfo`
pub record DotnetListInfo : Type 0 where
  pub mode : DotnetInstallMode
  pub version : Text
  pub architecture : Option Text

abbrev pub is_sdk : Option DotnetInstallMode → Bool
is_sdk (some sdk) = true
is_sdk _ = false

-- `s ? Number(s) : null`, where the empty string counts as false too.
abbrev pub number_or_null : Option Text → Option JsNumber
number_or_null none = none
number_or_null (some s) = if is_set s then some (to_number s) else none

-- `a >= b`, where null counts as 0.
abbrev pub or_zero : Option JsNumber → JsNumber
or_zero none = of_ℕ 0
or_zero (some n) = n

-- `a === b`, of numbers or null.
abbrev pub same_or_null : Option JsNumber → Option JsNumber → Bool
same_or_null none none = true
same_or_null (some a) (some b) = same_number a b
same_or_null _ _ = false

abbrev pub truthy_or_null : Option JsNumber → Bool
truthy_or_null none = false
truthy_or_null (some n) = is_truthy n

-- `simplifiedVersionSpec`: latestMajor and disable are other names.
abbrev pub adjusted : DotnetVersionSpecRequirement → DotnetVersionSpecRequirement
adjusted latest_major = greater_than_or_equal
adjusted disable = equal
adjusted equal = equal
adjusted greater_than_or_equal = greater_than_or_equal
adjusted less_than_or_equal = less_than_or_equal
adjusted latest_patch = latest_patch
adjusted latest_feature = latest_feature

abbrev band_text : Result Text → Option Text
band_text (ok band) = some band
band_text (throw _) = none

-- `getFeatureBand`: called so that a missing band is no error.
unfoldable pub get_feature_band : Option DotnetInstallMode → Text → Option JsNumber
unfolding get_feature_band_from_version
get_feature_band mode version =
    if is_sdk mode
    then number_or_null (band_text (get_feature_band_from_version version false))
    else none

unfoldable pub get_patch_or_feature_band_with_patch :
    Option DotnetInstallMode → Text → Result (Option JsNumber)
get_patch_or_feature_band_with_patch mode version =
    if is_sdk mode
    then ok (number_or_null (get_sdk_complete_band_and_patch_version_string version))
    else (get_runtime_patch_version_string version >>= λ patch. ok (number_or_null patch))

-- The third condition of `latestPatch`: an available band, if there is one, is the requested one.
abbrev pub band_matches : Option JsNumber → Option JsNumber → Bool
band_matches available requested =
    if truthy_or_null available then same_or_null available requested else true

-- The three `switch` statements: on patches, on minors and on majors.
unfoldable pub patch_meets :
    DotnetVersionSpecRequirement → Option JsNumber → Option JsNumber → Bool → Bool
patch_meets equal available requested band = same_or_null available requested
patch_meets greater_than_or_equal available requested band =
    less_or_equal (or_zero requested) (or_zero available)
patch_meets latest_feature available requested band =
    less_or_equal (or_zero requested) (or_zero available)
patch_meets less_than_or_equal available requested band =
    less_or_equal (or_zero available) (or_zero requested)
patch_meets latest_patch available requested band =
    less_or_equal (or_zero requested) (or_zero available) && band
patch_meets latest_major available requested band = false
patch_meets disable available requested band = false

unfoldable pub minor_meets : DotnetVersionSpecRequirement → JsNumber → JsNumber → Bool → Bool
minor_meets equal available requested band = same_number available requested
minor_meets greater_than_or_equal available requested band = less_or_equal requested available
minor_meets less_than_or_equal available requested band = less_or_equal available requested
minor_meets latest_patch available requested band = same_number available requested && band
minor_meets latest_feature available requested band = same_number available requested && band
minor_meets latest_major available requested band = false
minor_meets disable available requested band = false

unfoldable pub major_meets : DotnetVersionSpecRequirement → JsNumber → JsNumber → Bool
major_meets equal available requested = false
major_meets greater_than_or_equal available requested = less_or_equal requested available
major_meets less_than_or_equal available requested = less_or_equal available requested
major_meets latest_patch available requested = false
major_meets latest_feature available requested = false
major_meets latest_major available requested = false
major_meets disable available requested = false

-- `getPatchOrFeatureBandWithPatch` serves for the requested version too: the source has its body
-- there once more.
unfoldable pub string_version_meets_requirement : Text → Text → FindPathContext → Result Bool
unfolding patch_meets minor_meets major_meets get_feature_band get_patch_or_feature_band_with_patch
string_version_meets_requirement available requested requirement = do
  available_major ← get_major available
  requested_major ← get_major requested
  requested_patch ← get_patch_or_feature_band_with_patch requirement.mode requested
  let spec = adjusted requirement.version_spec_requirement
  let band =
      band_matches (get_feature_band requirement.mode available)
        (get_feature_band requirement.mode requested)
  if same_number (to_number available_major) (to_number requested_major)
      then (get_minor available >>= λ available_minor. get_minor requested >>= λ requested_minor.
          if same_number (to_number available_minor) (to_number requested_minor)
            && truthy_or_null requested_patch
          then (get_patch_or_feature_band_with_patch requirement.mode available
              >>= λ available_patch. ok (patch_meets spec available_patch requested_patch band))
          else ok (minor_meets spec (to_number available_minor) (to_number requested_minor) band))
      else ok (major_meets spec (to_number available_major) (to_number requested_major))

unfoldable pub allow_preview : Text → FindPathContext → Bool
allow_preview available requirement =
    if requirement.reject_previews then not (is_preview_version available) else true

-- FileUtilities.ts `dotnetInfoArchToNodeArch`
unfoldable pub dotnet_info_arch_to_node_arch : Text → Text
unfolding ◌===◌
dotnet_info_arch_to_node_arch arch =
    if arch === codes "x64"
      || arch === codes "x86"
      || arch === codes "arm"
      || arch === codes "arm64"
    then arch
    else codes "auto"

abbrev pub required_text : Architecture → Text
required_text null = []
required_text undefined = []
required_text (named arch) = arch

unfoldable pub string_architecture_meets_requirement : Text → Architecture → Bool
unfolding dotnet_info_arch_to_node_arch ◌===◌
string_architecture_meets_requirement output required =
    not (is_set (required_text required))
    || not (is_set output)
    || dotnet_info_arch_to_node_arch output === required_text required

-- `Array.prototype.some` and `filter` with a callback that may throw.
abbrev pub some_of {ℓ} : {A : Type ℓ} → (A → Result Bool) → List A → Result Bool
some_of f [] = ok false
some_of f (x ∷ xs) = let rest = some_of f xs in f x >>= λ b. if b then ok true else rest

abbrev pub keep_of {ℓ} : {A : Type ℓ} → (A → Result Bool) → List A → Result (List A)
keep_of f [] = ok []
keep_of f (x ∷ xs) =
    let rest = keep_of f xs in f x >>= λ b. rest >>= λ kept. ok (if b then x ∷ kept else kept)

abbrev pub mode_meets : DotnetInstallMode → Option DotnetInstallMode → Bool
mode_meets available none = false
mode_meets available (some sdk) = true
mode_meets available (some runtime) = same_mode available runtime
mode_meets available (some aspnetcore) = same_mode available aspnetcore

abbrev or_default : Option Text → Text → Text
or_default none default = default
or_default (some arch) default = arch

abbrev pub architecture_of_first : List DotnetListInfo → Text → Text
architecture_of_first [] default = default
architecture_of_first (install ∷ rest) default = or_default install.architecture default

-- The callback of `some`: for an SDK request the mode of an install is not looked at.
unfoldable pub install_meets : Text → FindPathContext → DotnetListInfo → Result Bool
unfolding string_architecture_meets_requirement
install_meets architecture requirement install =
    let version_meets =
      string_version_meets_requirement install.version requirement.version requirement in
    if mode_meets install.mode requirement.mode
      && string_architecture_meets_requirement architecture requirement.architecture
    then (version_meets >>= λ b. ok (b && allow_preview install.version requirement))
    else ok false

abbrev pub or_runtime : Option DotnetInstallMode → DotnetInstallMode
or_runtime none = runtime
or_runtime (some mode) = mode

-- `installs` is `getDotnetInstalls` of the executable, `default` the `defaultArchitecture()`.
unfoldable pub dotnet_meets_requirement :
    (DotnetInstallMode → Architecture → List DotnetListInfo) → Text → FindPathContext → Result Bool
unfolding install_meets
dotnet_meets_requirement installs default requirement =
    let available = installs (or_runtime requirement.mode) requirement.architecture in
    some_of (install_meets (architecture_of_first available default) requirement) available

-- `InstallRecordWithPath` down to the install that `filterValidPaths` reads, and its path.
pub record InstallRecordWithPath : Type 0 where
  pub dotnet_install : DotnetInstall
  pub install_path : Text

unfoldable pub filter_valid_paths :
    List InstallRecordWithPath → FindPathContext → Result (List InstallRecordWithPath)
filter_valid_paths records requirement =
    keep_of
      (λ record_path.
        string_version_meets_requirement record_path.dotnet_install.version requirement.version
          requirement)
      records
