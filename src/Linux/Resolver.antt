-- ===== src/Linux/Resolver.antt =====
-- LinuxVersionResolver.ts and LinuxGlobalInstaller.ts: the checks before an SDK is installed through
-- the package manager, and the status that the installation reports. `Initialize` gives the provider
-- or throws; the lock around the installation is left out.
use vscode_dotnet_runtime.Prelude.{
  Bool, true, false, ◌&&◌, ◌||◌, not, Option, none, some, if◌then◌else◌, Result, ok, throw,
  dotnet_acquisition_distro_unknown_error, dotnet_conflicting_linux_install_types_error,
  dotnet_custom_linux_install_exists_error, unsupported_distro,
}
use vscode_dotnet_runtime.Text.{Text, codes, ◌===◌}
use vscode_dotnet_runtime.Text.Number.{JsNumber, to_number, of_ℕ, same_number}
use vscode_dotnet_runtime.Version.{
  is_set, get_major_minor, get_feature_band_from_version, get_sdk_patch_version_string,
}
use vscode_dotnet_runtime.Install.{sdk}
use vscode_dotnet_runtime.Linux.{
  Platform, ProviderKind, generic, debian, red_hat, M, ◌>>=◌, ◌>>◌, pure, lift, fail, less_than,
}
use vscode_dotnet_runtime.Linux.Operations.{
  DotnetDistroSupportStatus, distro, microsoft, install_dotnet, upgrade_dotnet, uninstall_dotnet,
  dotnet_package_exists_on_system, get_installed_global_dotnet_path_if_exists,
  get_installed_global_dotnet_version_if_exists, get_dotnet_version_support_status,
  is_dotnet_version_supported,
}

abbrev pub DistroVersionPair : Type 0
DistroVersionPair = Text × Text

abbrev pub ok_update_exit_code : Text
ok_update_exit_code = codes "11188"

abbrev pub ok_already_exists_exit_code : Text
ok_already_exists_exit_code = codes "11166"

abbrev pub red_hat_distro_info_key : Text
red_hat_distro_info_key = codes "Red Hat Enterprise Linux"

abbrev pub debian_distro_info_key : Text
debian_distro_info_key = codes "Debian GNU/Linux"

-- What `getRunningDistro` found, kept unless a part of it is missing.
unfoldable pub get_running_distro_instance : Option DistroVersionPair → Result DistroVersionPair
get_running_distro_instance none = throw dotnet_acquisition_distro_unknown_error
get_running_distro_instance (some (name, version)) =
    if is_set name && is_set version
    then ok (name, version)
    else throw dotnet_acquisition_distro_unknown_error

-- `Number(getMajorMinor(version))` and the like.
abbrev pub major_minor_number : Text → Result JsNumber
major_minor_number version = elim (get_major_minor version) [
  | throw e ↦ throw e
  | ok t ↦ ok (to_number t)
]

abbrev pub band_number : Text → Result JsNumber
band_number version = elim (get_feature_band_from_version version true) [
  | throw e ↦ throw e
  | ok t ↦ ok (to_number t)
]

abbrev pub sdk_patch_number : Text → Result JsNumber
sdk_patch_number version = elim (get_sdk_patch_version_string version true) [
  | throw e ↦ throw e
  | ok t ↦ ok (to_number t)
]

module _ {W : Type 0} (p : Platform W) where
  unfoldable pub is_red_hat_version_7 : Text → Bool
  is_red_hat_version_7 rhel_version = same_number (p.floor (p.parse_float rhel_version)) (of_ℕ 7)

  -- The class of the provider; its constructor throws for a distro that distro-support.json lacks.
  unfoldable pub distro_provider_factory : (Text → Bool) → DistroVersionPair → Result ProviderKind
  distro_provider_factory is_listed (name, version) =
      if name === red_hat_distro_info_key && is_red_hat_version_7 version
      then throw dotnet_acquisition_distro_unknown_error
      else if not (is_listed name)
      then throw dotnet_acquisition_distro_unknown_error
      else ok (
          if name === red_hat_distro_info_key
          then red_hat
          else if name === debian_distro_info_key
          then debian
          else generic)

  abbrev pub reject_if_exists : Text → M W (Unit {0})
  reject_if_exists dir s =
      if p.exists dir s.machine
      then (throw dotnet_conflicting_linux_install_types_error, s)
      else (ok tt, s)

  unfoldable pub verify_no_conflict_install_type_exists : DotnetDistroSupportStatus → M W (Unit {0})
  verify_no_conflict_install_type_exists distro =
      reject_if_exists p.distro_data.expected_microsoft_feed_install_directory
  verify_no_conflict_install_type_exists microsoft =
      reject_if_exists p.distro_data.expected_distro_feed_install_directory
  verify_no_conflict_install_type_exists _ = pure tt

  abbrev pub expected_directory : DotnetDistroSupportStatus → Text
  expected_directory distro = p.distro_data.expected_distro_feed_install_directory
  expected_directory _ = p.distro_data.expected_microsoft_feed_install_directory

  -- An existing install, where there is one whose path is not empty.
  abbrev pub is_custom : DotnetDistroSupportStatus → Option Text → Bool
  is_custom status none = false
  is_custom status (some path) =
      is_set path && not (p.resolve path === p.resolve (expected_directory status))

  unfoldable pub verify_no_custom_install_exists :
      DotnetDistroSupportStatus → Option Text → M W (Unit {0})
  verify_no_custom_install_exists status existing_install =
      if is_custom status existing_install
      then fail dotnet_custom_linux_install_exists_error
      else pure tt

  abbrev pub after_upgrade : Option Text → Text
  after_upgrade none = codes "1"
  after_upgrade (some status) = if status === codes "0" then ok_update_exit_code else codes "1"

  -- An install of the requested version's major and minor part.
  abbrev pub upgrade_or_keep : Bool → Text → M W Text
  upgrade_or_keep false existing = pure ok_already_exists_exit_code
  upgrade_or_keep true existing = do
    status ← upgrade_dotnet p existing sdk
    pure (after_upgrade status)

  -- The source also compares the two major and minor parts, which are equal here.
  abbrev pub compare_bands : Text → Text → Bool → M W Text
  compare_bands version existing is_patch_upgrade = do
    existing_band ← lift (band_number existing)
    requested_band ← lift (band_number version)
    if less_than requested_band existing_band
        then fail dotnet_custom_linux_install_exists_error
        else (dotnet_package_exists_on_system p version sdk >>= λ exists.
            upgrade_or_keep (exists || is_patch_upgrade) existing)

  abbrev pub same_major_minor_existing : Text → Text → M W Text
  same_major_minor_existing version existing = do
    existing_patch ← lift (sdk_patch_number existing)
    requested_patch ← lift (sdk_patch_number version)
    compare_bands version existing (less_than existing_patch requested_patch)

  abbrev pub is_same_major_minor : Text → Text → Result Bool
  is_same_major_minor existing version = elim (major_minor_number existing) [
    | throw e ↦ throw e
    | ok a ↦ elim (major_minor_number version) [ throw e ↦ throw e | ok b ↦ ok (same_number a b) ]
  ]

  abbrev pub by_existing_version : Text → Option Text → M W Text
  by_existing_version version none = pure (codes "0")
  by_existing_version version (some existing) = do
    same ← lift (is_same_major_minor existing version)
    if same then same_major_minor_existing version existing else pure (codes "0")

  abbrev pub is_path : Option Text → Bool
  is_path none = false
  is_path (some path) = is_set path

  unfoldable pub update_or_reject_if_version_request_does_not_require_install :
      Text → Option Text → M W Text
  update_or_reject_if_version_request_does_not_require_install version existing_install =
      if is_path existing_install
      then (get_installed_global_dotnet_version_if_exists p >>= by_existing_version version)
      else pure (codes "0")

  -- `await installDotnet(...) ? '0' : '1'`: any status but the empty one gives '0'.
  abbrev pub reported_install : Text → M W Text
  reported_install version = do
    status ← install_dotnet p version sdk
    pure (if is_set status then codes "0" else codes "1")

  abbrev pub by_update_state : Text → Text → M W Text
  by_update_state version state =
      if state === codes "0"
      then reported_install version
      else if state === ok_update_exit_code || state === ok_already_exists_exit_code
      then pure (codes "0")
      else pure state

  abbrev pub validated_install : Text → M W Text
  validated_install version = do
    status ← get_dotnet_version_support_status p version sdk
    verify_no_conflict_install_type_exists status
    existing_install ← get_installed_global_dotnet_path_if_exists p
    verify_no_custom_install_exists status existing_install
    state ← update_or_reject_if_version_request_does_not_require_install version existing_install
    by_update_state version state

  unfoldable pub validate_and_install_sdk : Text → M W Text
  validate_and_install_sdk version = do
    supported ← is_dotnet_version_supported p version sdk
    if supported then validated_install version else fail unsupported_distro

  unfoldable pub uninstall_sdk : Text → M W Text
  uninstall_sdk version = uninstall_dotnet p version sdk

  unfoldable pub get_expected_global_sdk_path : Text → M W Text
  get_expected_global_sdk_path specific_sdk_version_installed = do
    status ← get_dotnet_version_support_status p specific_sdk_version_installed sdk
    pure (p.path_join (expected_directory status) p.dotnet_executable)
