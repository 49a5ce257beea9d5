-- ===== src/Installer.antt =====
-- vscode-dotnet-runtime-library/src/Acquisition/GlobalInstallerResolver.ts and, of
-- src/Utils/FileUtilities.ts, the names that .NET has for Node's systems and architectures: which
-- installer of the release index a requested SDK version gets. `fetch` is the web request for an
-- index, `extname` Node's `path.extname`, `platform` and `arch` are Node's names of the machine.
-- What the index holds is a string or a list where the source reads one, or is missing (`none`).
pub mod Route
pub mod Wanted
pub mod Sound
pub mod Band
pub mod Routed
pub mod Resolver
use vscode_dotnet_runtime.Prelude.{
  Bool, true, false, ◌||◌, Option, none, some, List, [], ◌∷◌, ◌++◌, ◌-◌, ◌==◌, if◌then◌else◌,
  length, any_of, Error, dotnet_version_resolution, dotnet_feature_band_does_not_exist,
  dotnet_unexpected_installer_os, dotnet_unexpected_installer_architecture,
  dotnet_invalid_releases_json, dotnet_no_installer_file_exists, type_error, Result, ok, throw,
  ◌>>=◌,
}
use vscode_dotnet_runtime.Text.{Text, codes, ◌===◌, starts_with}
use vscode_dotnet_runtime.Version.{is_set, get_feature_band_from_version, get_major_minor}

-- The index: an installer, an SDK, a release, the whole.
pub record InstallerFile : Type 0 where
  pub rid : Option Text
  pub name : Option Text
  pub url : Option Text
  pub hash : Option Text

pub record Sdk : Type 0 where
  pub version : Option Text
  pub files : Option (List InstallerFile)

pub record Release : Type 0 where
  pub sdks : Option (List Sdk)

pub record ReleaseIndex : Type 0 where
  pub latest_sdk : Option Text
  pub releases : Option (List Release)

unfoldable pub node_arch_to_dotnet_arch : Text → Text
unfolding ◌===◌
node_arch_to_dotnet_arch arch =
    if arch === codes "ia32" || arch === codes "x86"
    then codes "x86"
    else if any_of (λ known. arch === known)
        (codes "x64" ∷ codes "arm" ∷ codes "arm64" ∷ codes "s390x" ∷ [])
    then arch
    else codes "auto"

unfoldable pub node_os_to_dotnet_os : Text → Text
unfolding ◌===◌
node_os_to_dotnet_os platform =
    if platform === codes "win32"
    then codes "win"
    else if platform === codes "darwin"
    then codes "osx"
    else if platform === codes "linux"
    then platform
    else codes "auto"

unfoldable pub get_index_url : Text → Text
get_index_url major_minor =
    codes "https://builds.dotnet.microsoft.com/dotnet/release-metadata/"
    ++ major_minor
    ++ codes "/releases.json"

unfoldable pub starts_with_any : Text → List Text → Bool
unfolding starts_with
starts_with_any str [] = false
starts_with_any str (substring ∷ rest) = starts_with str substring || starts_with_any str rest

abbrev pub expected_domains : List Text
expected_domains =
    codes "https://download.visualstudio.microsoft.com/"
    ∷ codes "https://builds.dotnet.microsoft.com/"
    ∷ codes "https://ci.dot.net"
    ∷ codes "https://dotnetcli.blob.core.windows.net/"
    ∷ []

-- `a === b` where a may be undefined.
abbrev pub is_text : Option Text → Text → Bool
is_text none t = false
is_text (some s) t = s === t

abbrev pub set_or_null : Option Text → Option Text
set_or_null none = none
set_or_null (some s) = if is_set s then some s else none

abbrev pub text_or_empty : Option Text → Text
text_or_empty none = []
text_or_empty (some t) = t

abbrev pub desired_rid : Text → Text → Text
desired_rid platform arch = node_os_to_dotnet_os platform ++ b'-' ∷ node_arch_to_dotnet_arch arch

abbrev pub items_of {ℓ} : {A : Type ℓ} → Option (List A) → List A
items_of none = []
items_of (some xs) = xs

-- A property of an object that may be undefined.
abbrev pub defined {ℓ} : {A : Type ℓ} → Option A → Result A
defined none = throw type_error
defined (some a) = ok a

-- `(releases?.length ?? 0) === 0`.
abbrev pub not_empty : List Release → Result (List Release)
not_empty [] = throw dotnet_invalid_releases_json
not_empty (release ∷ rest) = ok (release ∷ rest)

abbrev pub releases_of : ReleaseIndex → Result (List Release)
releases_of index = not_empty (items_of index.releases)

abbrev pub specified : Option Text → Result Text
specified none = throw dotnet_version_resolution
specified (some version) = if is_set version then ok version else throw dotnet_version_resolution

-- `sdks.push.apply(sdks, release.sdks)` for each release.
unfoldable pub all_sdks : List Release → List Sdk
all_sdks [] = []
all_sdks (release ∷ rest) = items_of release.sdks ++ all_sdks rest

-- The loop of `getNewestSpecificVersionFromFeatureBand`.
unfoldable pub first_of_band : Text → List Sdk → Result Text
unfolding ◌===◌
first_of_band band [] = throw dotnet_feature_band_does_not_exist
first_of_band band (sdk ∷ rest) =
    let later = first_of_band band rest in
    defined sdk.version >>= λ version. get_feature_band_from_version version true >>= λ its_band.
    if its_band === band then ok version else later

abbrev pub first_sdks : List Release → Result (List Sdk)
first_sdks [] = throw dotnet_invalid_releases_json
first_sdks (release ∷ rest) = defined release.sdks

module _ (fetch : Text → Result (Option ReleaseIndex)) where
  unfoldable pub fetch_json_object_from_url : Text → Result ReleaseIndex
  fetch_json_object_from_url url = fetch url >>= λ index. defined index

  unfoldable pub get_newest_specific_version_from_feature_band : Text → Result Text
  unfolding first_of_band fetch_json_object_from_url
  get_newest_specific_version_from_feature_band version = do
    band ← get_feature_band_from_version version true
    major_minor ← get_major_minor version
    index ← fetch_json_object_from_url (get_index_url major_minor)
    releases ← releases_of index
    sdks ← first_sdks releases
    first_of_band band sdks

-- The checks of the installer that was found: its url and its hash.
abbrev pub checked : Option Text → Option Text → Result (Text × Option Text)
checked none hash = throw dotnet_invalid_releases_json
checked (some url) hash =
    if starts_with_any url expected_domains
    then ok (url, set_or_null hash)
    else throw dotnet_invalid_releases_json

unfoldable pub url_and_hash : InstallerFile → Result (Text × Option Text)
unfolding starts_with_any
url_and_hash installer = checked installer.url installer.hash

module _ (extname : Text → Text) where
  abbrev desired_file_extension : Text → Result Text
  desired_file_extension system =
      if system === codes "win"
      then ok (codes ".exe")
      else if system === codes "osx"
      then ok (codes ".pkg")
      else if system === codes "linux"
      then ok (codes ".gz")
      else throw dotnet_unexpected_installer_os

  -- Without a name, the error's text asks for the version's major and minor first.
  unfoldable pub installer_matches_desired_file_extension :
      Text → InstallerFile → Text → Result Bool
  unfolding ◌===◌
  installer_matches_desired_file_extension version installer system = elim installer.name [
    | none ↦ get_major_minor version >>= λ _. throw dotnet_invalid_releases_json
    | some name ↦ desired_file_extension system >>= λ wanted. ok (extname name === wanted)
  ]

  -- The loop over the files of the SDK of the version.
  unfoldable pub find_installer :
      Text → Text → Text → List InstallerFile → Result (Text × Option Text)
  unfolding installer_matches_desired_file_extension url_and_hash ◌===◌
  find_installer version system rid [] = throw dotnet_no_installer_file_exists
  find_installer version system rid (installer ∷ rest) =
      let later = find_installer version system rid rest in
      if is_text installer.rid rid
      then (installer_matches_desired_file_extension version installer system >>= λ matching.
          if matching then url_and_hash installer else later)
      else later

  -- The loop over the SDKs.
  unfoldable pub find_sdk : Text → Text → Text → List Sdk → Result (Text × Option Text)
  unfolding find_installer ◌===◌
  find_sdk version system rid [] = throw dotnet_no_installer_file_exists
  find_sdk version system rid (sdk ∷ rest) =
      let later = find_sdk version system rid rest in
      if is_text sdk.version version
      then (defined sdk.files >>= λ files. find_installer version system rid files)
      else later

  module _ (platform arch : Text) (fetch : Text → Result (Option ReleaseIndex)) where
    unfoldable pub find_correct_installer_url_and_hash :
        Option Text → Text → Result (Text × Option Text)
    unfolding find_sdk all_sdks fetch_json_object_from_url ◌===◌
    find_correct_installer_url_and_hash specific_version index_url =
        specified specific_version >>= λ version.
        if node_os_to_dotnet_os platform === codes "auto"
        then throw dotnet_unexpected_installer_os
        else if node_arch_to_dotnet_arch arch === codes "auto"
        then throw dotnet_unexpected_installer_architecture
        else (fetch_json_object_from_url fetch index_url >>= λ index.
            releases_of index >>= λ releases.
            find_sdk version (node_os_to_dotnet_os platform) (desired_rid platform arch)
              (all_sdks releases))
