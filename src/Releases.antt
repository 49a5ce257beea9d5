-- ===== src/Releases.antt =====
-- vscode-dotnet-runtime-library/src/Acquisition/VersionResolver.ts: the versions that the releases
-- index offers, and the one that a request stands for. Parameters: the index that the web request
-- gives, `none` where it gives nothing, and whether `semver.coerce` reads a version from a text.
pub mod Resolved
use vscode_dotnet_runtime.Prelude.{
  ◌≡◌, ◌≢◌, refl, sym, ◌∙◌, subst, ap, Bool, true, false, ◌&&◌, ◌||◌, not, Bool-cases, inl, inr,
  ◌⊎◌, Option, none, some, List, [], ◌∷◌, keep, length, ◌==◌, if◌then◌else◌, Error, Result, ok,
  throw, ◌>>=◌, dotnet_offline, dotnet_version_resolution,
}
use vscode_dotnet_runtime.Text.{Text, codes, ◌===◌, ===_iff}
use vscode_dotnet_runtime.Version.{bad_version, parts}
use vscode_dotnet_runtime.Install.{DotnetInstallMode, sdk, runtime, aspnetcore, same_mode}
use mathlib.Core.List.{Memᴰ}
use mathlib.Core.List.Memᴰ.{head, tail, cases_cons}

-- An entry of `releases-index`, with the keys that are read; a missing key is `none`.
pub record ReleaseEntry : Type 0 where
  pub release_type : Option Text
  pub support_phase : Option Text
  pub latest_sdk : Option Text
  pub latest_runtime : Option Text
  pub channel_version : Option Text

pub record DotnetVersion : Type 0 where
  pub support_status : Text
  pub support_phase : Text
  pub version : Text
  pub channel_version : Text

-- `value ?? otherwise`
abbrev pub value_or : Option Text → Text → Text
value_or none otherwise = otherwise
value_or (some t) otherwise = t

-- Whether the release type is 'lts' or 'sts'.
abbrev pub is_type : Option Text → Text → Bool
is_type none name = false
is_type (some t) name = t === name

unfoldable pub is_listed : ReleaseEntry → Bool
is_listed r = is_type r.release_type (codes "lts") || is_type r.release_type (codes "sts")

-- The latest version of a release: of its SDK or of its runtime.
abbrev pub latest_of : Bool → ReleaseEntry → Text
latest_of true r = value_or r.latest_sdk bad_version
latest_of false r = value_or r.latest_runtime bad_version

unfoldable pub listed_version : Bool → ReleaseEntry → DotnetVersion
listed_version get_sdk_versions r = record {
  support_status = value_or r.release_type (codes "sts");
  support_phase = value_or r.support_phase (codes "eol");
  version = latest_of get_sdk_versions r;
  channel_version = value_or r.channel_version bad_version;
}

unfoldable pub listed_versions : Bool → List ReleaseEntry → List DotnetVersion
listed_versions get_sdk_versions [] = []
listed_versions get_sdk_versions (r ∷ rs) =
    let rest = listed_versions get_sdk_versions rs in
    if is_listed r then listed_version get_sdk_versions r ∷ rest else rest

unfoldable pub get_available_dotnet_versions :
    Option (List ReleaseEntry) → Bool → Result (List DotnetVersion)
get_available_dotnet_versions none list_runtimes = throw dotnet_offline
get_available_dotnet_versions (some releases) list_runtimes =
    ok (listed_versions (not list_runtimes) releases)

unfoldable pub get_releases_info :
    Option (List ReleaseEntry) → DotnetInstallMode → Result (List DotnetVersion)
get_releases_info response mode =
    get_available_dotnet_versions response (same_mode mode runtime || same_mode mode aspnetcore)

unfoldable pub validate_version_input : (Text → Bool) → Text → Result (Unit {0})
validate_version_input coerces version =
    if not (coerces version)
      || not (length (parts version) == 2) && not (length (parts version) == 3)
    then throw dotnet_version_resolution
    else ok tt

-- The version of the first match; the matches of the channel where the version has none.
abbrev pub first_version : List DotnetVersion → Result Text
first_version [] = throw dotnet_version_resolution
first_version (v ∷ vs) = ok v.version

abbrev pub or_by_channel : List DotnetVersion → List DotnetVersion → List DotnetVersion
or_by_channel [] by_channel = by_channel
or_by_channel (v ∷ vs) by_channel = v ∷ vs

abbrev pub matching : Text → List DotnetVersion → List DotnetVersion
matching version releases =
    or_by_channel (keep (λ v. v.version === version) releases)
      (keep (λ v. v.channel_version === version) releases)

unfoldable pub resolve_version : (Text → Bool) → Text → List DotnetVersion → Result Text
resolve_version coerces version releases =
    (validate_version_input coerces version >>= λ _. first_version (matching version releases))

unfoldable pub get_full_version :
    (Text → Bool) → Option (List ReleaseEntry) → Text → DotnetInstallMode → Result Text
get_full_version coerces response version mode =
    (get_releases_info response mode >>= resolve_version coerces version)
