-- ===== src/Linux/Packages.antt =====
-- IDistroDotnetSDKProvider.ts: the packages that the distro offers, by searching for each, adding
-- Microsoft's feed where there are none, and the cache of what was found.
use vscode_dotnet_runtime.Prelude.{
  Bool, true, false, ◌&&◌, none, some, List, [], ◌∷◌, ◌++◌, if◌then◌else◌, get_or, Result, ok,
  throw, dotnet_version_resolution,
}
use vscode_dotnet_runtime.Text.{Text, codes, ◌===◌}
use vscode_dotnet_runtime.Listing.{trim}
use vscode_dotnet_runtime.Version.{is_set, get_major_minor}
use vscode_dotnet_runtime.Install.{DotnetInstallMode}
use vscode_dotnet_runtime.Linux.{
  Command, CommandResult, Platform, LinuxPackageCollection, PackageSet, M, ◌>>=◌, ◌>>◌, pure, lift,
  replace_substrings_in_commands, execute_multiple_commands, first_result, inject_pmc_feed,
}

abbrev pub missing_package_name_key : Text
missing_package_name_key = codes "{packageName}"

unfoldable pub is_package_found_in_search : Text → Text → Bool
is_package_found_in_search result_of_search_command search_command_exit_code =
    is_set (trim result_of_search_command) && search_command_exit_code === codes "0"

unfoldable pub json_dotnet_version : Text → Result Text
json_dotnet_version fully_specified_dotnet_version = get_major_minor fully_specified_dotnet_version

-- The first package of the version's set; the source's text of a missing one.
unfoldable pub package_for : Text → List LinuxPackageCollection → Result Text
unfolding json_dotnet_version
package_for version [] = throw dotnet_version_resolution
package_for version (p ∷ ps) =
    let rest = package_for version ps in
    elim (json_dotnet_version version) [
      | throw e ↦ throw e
      | ok wanted ↦
          if p.version === wanted then ok (get_or p.packages 0 (codes "undefined")) else rest
    ]

module _ {W : Type 0} (p : Platform W) where
  abbrev pub run_all : List Command → M W CommandResult
  run_all commands = (execute_multiple_commands p commands >>= first_result p)

  -- Searches for one package.
  unfoldable pub package_is_available : Text → M W Bool
  package_is_available package_name = do
    r ← run_all (
        replace_substrings_in_commands p.distro_data.search_command missing_package_name_key
          package_name)
    pure (is_package_found_in_search (trim r.stdout ++ trim r.stderr) (trim r.status))

  unfoldable pub available_packages : List Text → M W (List Text)
  available_packages [] = pure []
  available_packages (n ∷ ns) =
      let rest = available_packages ns in
      do exists ← package_is_available n; found ← rest; pure (if exists then n ∷ found else found)

  abbrev pub with_packages :
      Text → List Text → List LinuxPackageCollection → List LinuxPackageCollection
  with_packages version [] rest = rest
  with_packages version (n ∷ ns) rest = record { version = version; packages = n ∷ ns } ∷ rest

  unfoldable pub search_packages :
      DotnetInstallMode → List PackageSet → M W (List LinuxPackageCollection)
  search_packages install_type [] = pure []
  search_packages install_type (set ∷ sets) =
      let rest = search_packages install_type sets in
      do
        found ← available_packages (set.names install_type)
        others ← rest
        pure (with_packages set.version found others)

  abbrev pub cache_packages : List LinuxPackageCollection → M W (List LinuxPackageCollection)
  cache_packages found s = (ok found, record s { cached_my_version_packages = some found })

  abbrev pub cached_or : M W (List LinuxPackageCollection) → M W (List LinuxPackageCollection)
  cached_or search s = elim s.cached_my_version_packages [
    | none ↦ search s
    | some found ↦ (ok found, s)
  ]

  -- `myVersionPackages` once the feed was injected.
  unfoldable pub packages_after_injection : DotnetInstallMode → M W (List LinuxPackageCollection)
  packages_after_injection install_type =
      cached_or (search_packages install_type p.distro_data.packages >>= cache_packages)

  abbrev pub found_or_injected :
      DotnetInstallMode → List LinuxPackageCollection → M W (List LinuxPackageCollection)
  found_or_injected install_type [] = do
    inject_pmc_feed p
    again ← packages_after_injection install_type
    cache_packages again
  found_or_injected install_type (x ∷ xs) = cache_packages (x ∷ xs)

  unfoldable pub my_version_packages : DotnetInstallMode → Bool → M W (List LinuxPackageCollection)
  my_version_packages install_type true = packages_after_injection install_type
  my_version_packages install_type false =
      cached_or
        (search_packages install_type p.distro_data.packages >>= found_or_injected install_type)

  -- `this.myVersionPackages(installType, this.isMidFeedInjection)`
  abbrev pub current_packages : DotnetInstallMode → M W (List LinuxPackageCollection)
  current_packages install_type s = my_version_packages install_type s.is_mid_feed_injection s

  unfoldable pub my_dotnet_version_package_name : Text → DotnetInstallMode → M W Text
  my_dotnet_version_package_name version install_type = do
    packages ← current_packages install_type
    lift (package_for version packages)
