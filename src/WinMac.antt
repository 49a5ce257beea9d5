-- ===== src/WinMac.antt =====
-- vscode-dotnet-runtime-library/src/Acquisition/WinMacGlobalInstaller.ts: running the official
-- installers of Windows and macOS. Parameters (`Desktop`): the machine `W` with the files, the
-- registry, and the programs that are run, by their statuses; the consent of the user; the folder for
-- downloads. The lock around an installation, the grant of permissions to a file and the texts of
-- errors are left out.
pub mod Verified
use vscode_dotnet_runtime.Prelude.{
  ℕ, Bool, true, false, ◌&&◌, ◌||◌, not, any_of, Option, none, some, List, [], ◌∷◌, if◌then◌else◌,
  Result, ok, throw, ◌>>=◌, and_then, dotnet_conflicting_global_windows_install_error,
  dotnet_install_cancelled_by_user_error, dotnet_no_installer_response_error,
}
use vscode_dotnet_runtime.Text.{Text, codes, ◌===◌, split}
use vscode_dotnet_runtime.Text.Number.{JsNumber, to_number, less_or_equal, same_number}
use vscode_dotnet_runtime.Version.{
  is_set, get_major_minor, get_feature_band_from_version, get_sdk_patch_version_string,
}

pub record Desktop (W : Type 0) : Type 0 where
  pub is_windows : Bool
  pub is_mac : Bool
  pub installed_sdks : W → List Text
  pub file_exists : Text → W → Bool
  pub get_file_hash : Text → W → Option Text
  pub user_consents : Bool
  pub download_folder : Text → Text
  pub path_join : Text → Text → Text
  pub dirname : Text → Text
  pub wipe_directory : Text → W → W
  pub mkdir : Text → W → Result (Unit {0}) × W
  pub download_file : Text → Text → W → Result (Unit {0}) × W
  pub run_installer : Text → Bool → W → Result Text × W
  pub run_mac_backup : Text → W → Result Text × W
  pub backup_is_valid : W → Bool
  pub run_uninstaller : Text → W → Result Text × W
  pub remove_mac_sdk : Text → W → Result Text × W

-- The fields of the installer; a hash that is not known is null.
pub record WinMacGlobalInstaller : Type 0 where
  pub installer_url : Text
  pub installing_version : Text
  pub installer_hash : Option Text
  pub cleanup_install_files : Bool

-- `Number(f(requested))` against `Number(f(sdk))`.
abbrev pub compared :
    (Text → Result Text) → (JsNumber → JsNumber → Bool) → Text → Text → Result Bool
compared f test requested sdk =
    (f requested >>= λ a. f sdk >>= λ b. ok (test (to_number a) (to_number b)))

abbrev pub and_also : Result Bool → Result Bool → Result Bool
and_also first second = (first >>= λ b. if b then second else ok false)

unfoldable pub conflicts : Text → Text → Result Bool
conflicts requested sdk = and_also (compared get_major_minor same_number requested sdk) (
    and_also (compared (λ v. get_feature_band_from_version v true) same_number requested sdk)
      (compared (λ v. get_sdk_patch_version_string v true) less_or_equal requested sdk))

unfoldable pub global_windows_install_with_conflicting_version_already_exists :
    Text → List Text → Result Text
global_windows_install_with_conflicting_version_already_exists requested [] = ok []
global_windows_install_with_conflicting_version_already_exists requested (sdk ∷ sdks) =
    let rest = global_windows_install_with_conflicting_version_already_exists requested sdks in
    (conflicts requested sdk >>= λ b. if b then ok sdk else rest)

abbrev pub last_of : List Text → Text
last_of [] = []
last_of (x ∷ []) = x
last_of (x ∷ y ∷ ys) = last_of (y ∷ ys)

abbrev pub one_of : List Text → Text → Bool
one_of codes_of status = any_of (λ c. c === status) codes_of

abbrev pub valid_installer_status_codes : List Text
valid_installer_status_codes = codes "0" ∷ codes "1641" ∷ codes "3010" ∷ []

abbrev pub no_permission_status_codes : List Text
no_permission_status_codes = codes "1" ∷ codes "5" ∷ codes "1260" ∷ codes "2147942405" ∷ []

module _ {W : Type 0} (s : Desktop W) (installer : WinMacGlobalInstaller) where
  abbrev pub unless_asked : Bool → Bool
  unless_asked ask = ask && s.user_consents

  unfoldable pub installer_file_has_valid_integrity : Text → Bool → W → Bool
  installer_file_has_valid_integrity installer_file ask w =
      elim (s.get_file_hash installer_file w) [
        | none ↦ unless_asked ask
        | some real_file_hash ↦ elim installer.installer_hash [
          | none ↦ unless_asked ask
          | some expected_file_hash ↦ real_file_hash === expected_file_hash
        ]
      ]

  abbrev pub handle_timeout : Text → W → Result Text × W
  handle_timeout status w =
      if status === codes "SIGTERM"
      then (throw dotnet_no_installer_response_error, w)
      else (ok status, w)

  abbrev pub after_backup : Text → W → Result Text × W
  after_backup status w = (ok (if s.backup_is_valid w then codes "0" else status), w)

  abbrev pub when_mac_ran : Text → Text → W → Result Text × W
  when_mac_ran installer_path status w =
      if status === codes "0"
      then (ok status, w)
      else and_then (s.run_mac_backup installer_path w)
          (λ backup w'. and_then (handle_timeout backup w') (λ _ w''. after_backup status w''))

  unfoldable pub execute_install : Text → Bool → W → Result Text × W
  execute_install installer_path elevate_vs_code w =
      and_then (s.run_installer installer_path elevate_vs_code w) (λ status w'.
        and_then (handle_timeout status w')
          (λ r w''. if s.is_mac then when_mac_ran installer_path r w'' else (ok r, w'')))

  abbrev pub cleaned_up : Text → W → W
  cleaned_up installer_file w =
      if installer.cleanup_install_files then s.wipe_directory (s.dirname installer_file) w else w

  -- `handleStatus` with what follows a status of missing permissions.
  abbrev pub handle_status_or : (W → Result Text × W) → Text → Text → W → Result Text × W
  handle_status_or retry installer_result installer_file w =
      if one_of valid_installer_status_codes installer_result
      then (ok (codes "0"), cleaned_up installer_file w)
      else if installer_result === codes "1602"
      then (throw dotnet_install_cancelled_by_user_error, w)
      else if one_of no_permission_status_codes installer_result
      then retry w
      else (ok installer_result, w)

  unfoldable pub handle_status : Text → Text → Bool → W → Result Text × W
  handle_status installer_result installer_file false w =
      handle_status_or (λ w'. (ok installer_result, w')) installer_result installer_file w
  handle_status installer_result installer_file true w =
      handle_status_or
        (λ w'.
          and_then (execute_install installer_file true w')
            (λ r w''. handle_status_or (λ v. (ok r, v)) r installer_file w''))
        installer_result installer_file w

  abbrev pub installer_path : Text
  installer_path =
      s.path_join (s.download_folder installer.installer_url)
        (last_of (split b'/' installer.installer_url))

  abbrev pub make_folder : Text → W → Result (Unit {0}) × W
  make_folder dir w = if s.file_exists dir w then (ok tt, w) else s.mkdir dir w

  unfoldable pub download_installer : W → Result Text × W
  download_installer w =
      if s.file_exists installer_path w && installer_file_has_valid_integrity installer_path false w
      then (ok installer_path, w)
      else and_then
          (make_folder (s.dirname installer_path)
            (s.wipe_directory (s.download_folder installer.installer_url) w))
          (λ _ w'.
            and_then (s.download_file installer.installer_url installer_path w')
              (λ _ w''. (ok installer_path, w'')))

  -- The file is run only if its hash is the expected one.
  abbrev pub when_valid : (Text → W → Result Text × W) → Text → W → Result Text × W
  when_valid run installer_file w =
      if installer_file_has_valid_integrity installer_file false w
      then run installer_file w
      else (throw dotnet_conflicting_global_windows_install_error, w)

  abbrev pub run_install : Text → W → Result Text × W
  run_install installer_file w =
      and_then (execute_install installer_file false w)
        (λ status w'. handle_status status installer_file true w')

  abbrev pub download_and_install : W → Result Text × W
  download_and_install w = and_then (download_installer w) (when_valid run_install)

  abbrev pub unless_conflicting : Text → W → Result Text × W
  unless_conflicting [] w = download_and_install w
  unless_conflicting (c ∷ cs) w =
      if c ∷ cs === installer.installing_version
      then (ok (codes "0"), w)
      else (throw dotnet_conflicting_global_windows_install_error, w)

  unfoldable pub install_sdk : W → Result Text × W
  install_sdk w =
      if s.is_windows
      then and_then
          (
            global_windows_install_with_conflicting_version_already_exists
                installer.installing_version (s.installed_sdks w),
            w,
          )
          unless_conflicting
      else download_and_install w

  abbrev pub run_uninstall : Text → W → Result Text × W
  run_uninstall installer_file w = and_then (s.run_uninstaller installer_file w) handle_timeout

  unfoldable pub uninstall_sdk : Text → W → Result Text × W
  uninstall_sdk version w =
      if s.is_windows
      then and_then (download_installer w) (when_valid run_uninstall)
      else and_then (s.remove_mac_sdk version w) handle_timeout
