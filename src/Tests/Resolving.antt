-- ===== src/Tests/Resolving.antt =====
-- Runs of the theorems on GlobalInstallerResolver.ts.
use mathlib.Core.List.{Memᴰ}
use vscode_dotnet_runtime.Prelude.{
  ◌≡◌, ◌⊎◌, refl, ◌≢◌, Option, none, some, List, [], ◌∷◌, Result, ok,
}
use vscode_dotnet_runtime.Text.{Text, codes}
use vscode_dotnet_runtime.Version.{get_feature_band_from_version, get_major_minor}
use vscode_dotnet_runtime.Installer.{
  InstallerFile, Sdk, Release, ReleaseIndex, node_os_to_dotnet_os, get_index_url, set_or_null,
  items_of, all_sdks, url_and_hash, desired_rid, find_correct_installer_url_and_hash,
  get_newest_specific_version_from_feature_band,
}
use vscode_dotnet_runtime.Installer.Route.{
  Resolved, Resolver, route_request_to_proper_version_request_type,
}
use vscode_dotnet_runtime.Installer.Wanted.{Answers}
use vscode_dotnet_runtime.Installer.Sound.{installer_in_index}
use vscode_dotnet_runtime.Installer.Routed.{IsLatest, IsOfBand, IsItself, routed_is_found}

abbrev extension_of : Text → Text
extension_of name = codes ".pkg"

abbrev file : InstallerFile
file = record {
  rid = some (codes "osx-arm64");
  name = some (codes "dotnet-sdk.pkg");
  url = some (codes "https://ci.dot.net/sdk.pkg");
  hash = some (codes "12ab");
}

abbrev releases : List Release
releases =
    record {
      sdks = some (record { version = some (codes "8.0.302"); files = some (file ∷ []) } ∷ []);
    }
    ∷ []

abbrev index : ReleaseIndex
index = record { latest_sdk = some (codes "8.0.302"); releases = some releases }

abbrev fetch : Text → Result (Option ReleaseIndex)
fetch url = ok (some index)

abbrev offline : Text → Result (Option ReleaseIndex)
offline url = ok none

abbrev mac : Text
mac = codes "darwin"

abbrev arm : Text
arm = codes "arm64"

abbrev found : Text × Option Text
found = (codes "https://ci.dot.net/sdk.pkg", some (codes "12ab"))

abbrev resolved : Resolved
resolved = record {
  installer_url = codes "https://ci.dot.net/sdk.pkg";
  version = codes "8.0.302";
  installer_hash = some (codes "12ab");
}

abbrev determined : Resolver
determined = record {
  requested_version = codes "8.0";
  discovered_installer_url = codes "https://ci.dot.net/sdk.pkg";
  fully_specified_version_requested = codes "8.0.302";
  expected_installer_hash = some (codes "12ab");
}

installer_in_index_example :
    (v : Text) × (i : ReleaseIndex) × (sdk : Sdk) × (f : InstallerFile) × (some (codes "8.0.302")
      ≡ some v)
    × (v ≢ [])
    × (fetch (codes "u") ≡ ok (some i))
    × Memᴰ sdk (all_sdks (items_of i.releases))
    × (sdk.version ≡ some v)
    × Memᴰ f (items_of sdk.files)
    × Answers extension_of mac arm found f
unfolding find_correct_installer_url_and_hash node_os_to_dotnet_os
    vscode_dotnet_runtime.Installer.node_arch_to_dotnet_arch
installer_in_index_example =
    installer_in_index extension_of mac arm fetch (some (codes "8.0.302")) (codes "u") found refl

routed_is_found_example :
    (mm : Text) × (find_correct_installer_url_and_hash extension_of mac arm fetch
        (some resolved.version)
        (get_index_url mm)
      ≡ ok (resolved.installer_url, resolved.installer_hash))
    × (IsLatest extension_of mac arm fetch (codes "8.0") mm resolved.version
        ⊎ (IsOfBand extension_of mac arm fetch (codes "8.0") mm resolved.version
            ⊎ IsItself extension_of mac arm fetch (codes "8.0") mm resolved.version))
unfolding route_request_to_proper_version_request_type
    vscode_dotnet_runtime.Version.is_non_specific_major_or_major_minor_version
    vscode_dotnet_runtime.Version.is_number vscode_dotnet_runtime.Text.Number.is_nan
    vscode_dotnet_runtime.Text.Number.to_number vscode_dotnet_runtime.Text.split
    vscode_dotnet_runtime.Installer.fetch_json_object_from_url find_correct_installer_url_and_hash
    node_os_to_dotnet_os vscode_dotnet_runtime.Installer.node_arch_to_dotnet_arch
routed_is_found_example = routed_is_found extension_of mac arm fetch (codes "8.0") resolved refl
