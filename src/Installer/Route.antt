-- ===== src/Installer/Route.antt =====
-- GlobalInstallerResolver.ts: the routing of a requested version, and the resolver's fields.
use vscode_dotnet_runtime.Prelude.{
  Bool, not, ◌||◌, Option, some, [], ◌++◌, ◌-◌, ◌==◌, if◌then◌else◌, length,
  dotnet_version_resolution, Result, ok, throw, ◌>>=◌,
}
use vscode_dotnet_runtime.Text.{Text, codes}
use vscode_dotnet_runtime.Version.{
  parts, is_set, get_major_minor, is_non_specific_major_or_major_minor_version,
  is_non_specific_feature_banded_version, is_fully_specified_version,
}
use vscode_dotnet_runtime.Installer.{
  ReleaseIndex, text_or_empty, get_index_url, fetch_json_object_from_url,
  find_correct_installer_url_and_hash, get_newest_specific_version_from_feature_band,
}

-- What the routing gives: the url, the fully specified version and the hash.
pub record Resolved : Type 0 where
  pub installer_url : Text
  pub version : Text
  pub installer_hash : Option Text

-- The fields of a `GlobalInstallerResolver` that change, and the version it was made for.
pub record Resolver : Type 0 where
  pub requested_version : Text
  pub discovered_installer_url : Text
  pub fully_specified_version_requested : Text
  pub expected_installer_hash : Option Text

abbrev pub new_resolver : Text → Resolver
new_resolver version = record {
  requested_version = version;
  discovered_installer_url = [];
  fully_specified_version_requested = [];
  expected_installer_hash = some [];
}

abbrev pub unresolved : Resolver → Bool
unresolved s =
    not (is_set s.fully_specified_version_requested) || not (is_set s.discovered_installer_url)

module _ (extname : Text → Text) (platform arch : Text)
    (fetch : Text → Result (Option ReleaseIndex)) where
  abbrev pub with_installer : Option Text → Text → Result Resolved
  with_installer version index_url =
      find_correct_installer_url_and_hash extname platform arch fetch version index_url >>= λ found.
      ok (record {
        installer_url = found.0;
        version = text_or_empty version;
        installer_hash = found.1;
      })

  abbrev with_latest : Text → Result Resolved
  with_latest index_url = fetch_json_object_from_url fetch index_url >>= λ index.
      with_installer index.latest_sdk index_url

  unfoldable pub route_request_to_proper_version_request_type : Text → Result Resolved
  route_request_to_proper_version_request_type version =
      if is_non_specific_major_or_major_minor_version version
      then with_latest (
          get_index_url
            (if length (parts version) - 1 == 0 then version ++ codes ".0" else version))
      else if is_non_specific_feature_banded_version version
      then (get_newest_specific_version_from_feature_band fetch version >>= λ specific.
          get_major_minor specific >>= λ major_minor.
          with_installer (some specific) (get_index_url major_minor))
      else (is_fully_specified_version version >>= λ full.
          if full
          then (get_major_minor version >>= λ major_minor.
              with_installer (some version) (get_index_url major_minor))
          else throw dotnet_version_resolution)

  unfoldable pub determine_version_and_installer_url : Resolver → Result Resolver
  unfolding route_request_to_proper_version_request_type
  determine_version_and_installer_url s =
      if unresolved s
      then (route_request_to_proper_version_request_type s.requested_version >>= λ found.
          ok (record s {
            discovered_installer_url = found.installer_url;
            fully_specified_version_requested = found.version;
            expected_installer_hash = found.installer_hash;
          }))
      else ok s

  -- The three getters: the answer and the resolver after it.
  unfoldable pub get_installer_url : Resolver → Result (Text × Resolver)
  unfolding determine_version_and_installer_url
  get_installer_url s =
      determine_version_and_installer_url s >>= λ s'. ok (s'.discovered_installer_url, s')

  unfoldable pub get_fully_specified_version : Resolver → Result (Text × Resolver)
  unfolding determine_version_and_installer_url
  get_fully_specified_version s =
      determine_version_and_installer_url s >>= λ s'. ok (s'.fully_specified_version_requested, s')

  unfoldable pub get_installer_hash : Resolver → Result (Option Text × Resolver)
  unfolding determine_version_and_installer_url
  get_installer_hash s =
      determine_version_and_installer_url s >>= λ s'. ok (s'.expected_installer_hash, s')
