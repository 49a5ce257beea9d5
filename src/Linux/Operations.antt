-- ===== src/Linux/Operations.antt =====
-- GenericDistroSDKProvider.ts and its subclass DebianDistroSDKProvider.ts: whether the distro supports
-- a version of .NET, and installing, upgrading, removing and looking for an SDK.
use vscode_dotnet_runtime.Prelude.{
  ℕ, Bool, true, false, ◌&&◌, ◌||◌, not, Option, none, some, List, [], ◌∷◌, if◌then◌else◌, get_or,
  length, ◌==◌, Result, ok, throw, type_error, dotnet_version_resolution,
}
use vscode_dotnet_runtime.Text.{Text, codes, ◌===◌, split}
use vscode_dotnet_runtime.Text.Number.{is_space, to_number, of_ℕ, same_number}
use vscode_dotnet_runtime.Listing.{trim}
use vscode_dotnet_runtime.Version.{
  is_set, get_major, get_feature_band_from_version, is_valid_long_form_version_format,
  convert_to_linux_package_manager_supported_version,
}
use vscode_dotnet_runtime.Install.{DotnetInstallMode}
use vscode_dotnet_runtime.Linux.{
  Command, CommandResult, Platform, LinuxPackageCollection, ProviderKind, debian, M, ◌>>=◌, ◌>>◌,
  pure, lift, fail, less_than, replace_first, replace_substrings_in_commands,
  execute_multiple_commands, run_command, inject_pmc_feed, pre_install_of,
}
use vscode_dotnet_runtime.Linux.Packages.{
  missing_package_name_key, json_dotnet_version, run_all, current_packages,
  my_dotnet_version_package_name,
}

pub data DotnetDistroSupportStatus : Type 0 where
  unsupported distro microsoft partial unknown : DotnetDistroSupportStatus

abbrev pub missing_path_key : Text
missing_path_key = codes "{path}"

-- `text.split(/\s+/)`; the flag tells whether the last character was a space.
abbrev pub onto_first : ℕ → List Text → List Text
onto_first c [] = (c ∷ []) ∷ []
onto_first c (p ∷ ps) = (c ∷ p) ∷ ps

unfoldable pub split_spaces : Bool → Text → List Text
split_spaces after_space [] = [] ∷ []
split_spaces true (x ∷ xs) =
    let skipped = split_spaces true xs in
    let begun = split_spaces false xs in if is_space x then skipped else onto_first x begun
split_spaces false (x ∷ xs) =
    let skipped = split_spaces true xs in
    let begun = split_spaces false xs in if is_space x then [] ∷ skipped else onto_first x begun

abbrev pub drop_last : List Command → List Command
drop_last [] = []
drop_last (x ∷ []) = []
drop_last (x ∷ y ∷ ys) = x ∷ drop_last (y ∷ ys)

abbrev pub last : List Command → Option Command
last [] = none
last (x ∷ []) = some x
last (x ∷ y ∷ ys) = last (y ∷ ys)

-- The versions that the lines `version [path]` and `runtime version [path]` hold.
unfoldable pub sdk_versions_in : List Text → List Text
sdk_versions_in [] = []
sdk_versions_in (line ∷ lines) =
    let words = split_spaces false line in
    let rest = sdk_versions_in lines in
    if length words == 2 && is_set (get_or words 0 []) then get_or words 0 [] ∷ rest else rest

unfoldable pub runtime_versions_in : List Text → List Text
runtime_versions_in [] = []
runtime_versions_in (line ∷ lines) =
    let words = split_spaces false line in
    let rest = runtime_versions_in lines in
    if length words == 3 then get_or words 1 [] ∷ rest else rest

-- The loop of `getRecommendedDotnetVersion`.
unfoldable pub highest_package_version : Text → List LinuxPackageCollection → Text
highest_package_version max_version [] = max_version
highest_package_version max_version (p ∷ ps) =
    let higher = less_than (to_number max_version) (to_number p.version) in
    highest_package_version (if higher then p.version else max_version) ps

-- Whether a set is for the version, both read as numbers.
unfoldable pub has_packages_for : Text → List LinuxPackageCollection → Bool
has_packages_for simplified_version [] = false
has_packages_for simplified_version (p ∷ ps) =
    same_number (to_number p.version) (to_number simplified_version)
    || has_packages_for simplified_version ps

module _ {W : Type 0} (p : Platform W) where
  -- A command of the distro for the package of a version.
  abbrev pub commands_for : List Command → Text → DotnetInstallMode → M W (List Command)
  commands_for commands version install_type = do
    sdk_package ← my_dotnet_version_package_name p version install_type
    pure (replace_substrings_in_commands commands missing_package_name_key sdk_package)

  abbrev pub run_last : Option Command → M W CommandResult
  run_last none = fail type_error
  run_last (some command) = run_command p command

  unfoldable pub install_dotnet : Text → DotnetInstallMode → M W Text
  install_dotnet version install_type = do
    inject_pmc_feed p
    commands ← commands_for p.distro_data.install_command version install_type
    updates ← execute_multiple_commands p (drop_last commands)
    r ← run_last (last commands)
    pure r.status

  -- The first character of the status; `undefined` where there is none.
  unfoldable pub upgrade_dotnet : Text → DotnetInstallMode → M W (Option Text)
  upgrade_dotnet version install_type = do
    commands ← commands_for p.distro_data.update_command version install_type
    r ← run_all p commands
    pure (elim r.status [ [] ↦ none | x ∷ xs ↦ some (x ∷ []) ])

  unfoldable pub uninstall_dotnet : Text → DotnetInstallMode → M W Text
  uninstall_dotnet version install_type = do
    commands ← commands_for p.distro_data.uninstall_command version install_type
    r ← run_all p commands
    pure r.status

  -- Debian's provider adds the feed first.
  abbrev pub inject_first : ProviderKind → M W (Unit {0})
  inject_first debian = inject_pmc_feed p
  inject_first _ = pure tt

  unfoldable pub dotnet_package_exists_on_system : Text → DotnetInstallMode → M W Bool
  dotnet_package_exists_on_system version install_type = do
    inject_first p.kind
    simplified ← lift (json_dotnet_version version)
    commands ← commands_for p.distro_data.package_lookup_command simplified install_type
    r ← run_all p commands
    pure (r.status === codes "0")

  abbrev pub resolved_link : Text → M W (Option Text)
  resolved_link path = do
    r ←
        run_all p
          (replace_substrings_in_commands p.distro_data.read_sym_link_command missing_path_key path)
    pure (some (if is_set r.stdout then p.dirname (trim r.stdout) else path))

  unfoldable pub get_installed_global_dotnet_path_if_exists : M W (Option Text)
  get_installed_global_dotnet_path_if_exists = do
    r ← run_all p p.distro_data.current_install_path_command
    if r.status === codes "0" then resolved_link (trim r.stdout) else pure none

  unfoldable pub get_installed_global_dotnet_version_if_exists : M W (Option Text)
  get_installed_global_dotnet_version_if_exists = do
    r ← run_all p p.distro_data.current_installation_version_command
    valid ← lift (is_valid_long_form_version_format (replace_first (10 ∷ []) [] r.stdout))
    pure (if valid then some (replace_first (10 ∷ []) [] r.stdout) else none)

  unfoldable pub get_installed_dotnet_sdk_versions : M W (List Text)
  get_installed_dotnet_sdk_versions = do
    r ← run_all p p.distro_data.installed_sdk_versions_command
    pure (sdk_versions_in (split 10 r.stdout))

  unfoldable pub get_installed_dotnet_runtime_versions : M W (List Text)
  get_installed_dotnet_runtime_versions = do
    r ← run_all p p.distro_data.installed_runtime_versions_command
    pure (runtime_versions_in (split 10 r.stdout))

  -- The status of a version with packages: Microsoft's where the feed has to be added.
  abbrev pub status_of_feed : Option (List Command) → DotnetDistroSupportStatus
  status_of_feed none = distro
  status_of_feed (some commands) = microsoft

  -- A band other than the first, or a version before 6.
  unfoldable pub is_out_of_range : Text → Result Bool
  is_out_of_range version = elim (get_feature_band_from_version version true) [
    | throw e ↦ throw e
    | ok band ↦ if not (band === codes "1") then ok true else elim (get_major version) [
      | throw e ↦ throw e
      | ok major ↦ ok (less_than (to_number major) (of_ℕ 6))
    ]
  ]

  abbrev pub status_of_found : Bool → Result DotnetDistroSupportStatus
  status_of_found false = ok unknown
  status_of_found true = elim (pre_install_of p p.kind) [
    | throw e ↦ throw e
    | ok pre_install ↦ ok (status_of_feed pre_install)
  ]

  unfoldable pub status_in : Text → List LinuxPackageCollection → Result DotnetDistroSupportStatus
  status_in version available = elim (json_dotnet_version version) [
    | throw e ↦ throw e
    | ok simplified ↦ status_of_found (has_packages_for simplified available)
  ]

  abbrev pub status_by_packages : Text → DotnetInstallMode → M W DotnetDistroSupportStatus
  status_by_packages version install_type =
      (current_packages p install_type >>= λ available. lift (status_in version available))

  abbrev pub status_in_range : Text → DotnetInstallMode → Bool → M W DotnetDistroSupportStatus
  status_in_range version install_type true = pure unsupported
  status_in_range version install_type false = status_by_packages version install_type

  unfoldable pub get_dotnet_version_support_status :
      Text → DotnetInstallMode → M W DotnetDistroSupportStatus
  get_dotnet_version_support_status version install_type = do
    out ← lift (is_out_of_range version)
    status_in_range version install_type out

  abbrev pub is_supported_status : DotnetDistroSupportStatus → Bool
  is_supported_status distro = true
  is_supported_status microsoft = true
  is_supported_status _ = false

  unfoldable pub is_dotnet_version_supported : Text → DotnetInstallMode → M W Bool
  is_dotnet_version_supported version install_type = do
    status ← get_dotnet_version_support_status version install_type
    pure (is_supported_status status)

  unfoldable pub get_recommended_dotnet_version : DotnetInstallMode → M W Text
  get_recommended_dotnet_version install_type = do
    packages ← current_packages p install_type
    lift (
        let highest = highest_package_version (codes "0") packages in
        if highest === codes "0"
        then throw dotnet_version_resolution
        else convert_to_linux_package_manager_supported_version highest)
