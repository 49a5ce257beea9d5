-- ===== src/Tests/Installing.antt =====
-- A run of the theorem on WinMacGlobalInstaller.ts.
use vscode_dotnet_runtime.Prelude.{
  ℕ, ◌+◌, ◌≡◌, refl, ◌⊎◌, true, false, some, [], ◌∷◌, ◌++◌, if◌then◌else◌, ok,
}
use vscode_dotnet_runtime.Text.{codes, ◌===◌, split}
use vscode_dotnet_runtime.Text.Number.{
  is_nan, less_or_equal, same_number, is_space, trim_start, trim_end, digit_value, radix_literal,
  scan_digits, exponent_part, unsigned_literal, signed_literal, numeric_literal, to_number,
}
use vscode_dotnet_runtime.Version.{
  get_major_minor, get_major_minor_from_valid_version, get_feature_band_from_version,
  get_sdk_patch_version_string, get_sdk_feature_band_or_patch_from_fully_specified_version,
  is_number,
}
use vscode_dotnet_runtime.WinMac.{
  Desktop, WinMacGlobalInstaller, conflicts,
  global_windows_install_with_conflicting_version_already_exists,
  installer_file_has_valid_integrity, execute_install, handle_status, download_installer,
  install_sdk,
}
use vscode_dotnet_runtime.WinMac.Verified.{IsThere, RanVerified, installed-RanVerified}

-- Windows with an older patch; the installer lacks permissions unless it is elevated. The machine
-- counts what was done.
abbrev windows : Desktop ℕ
windows = record {
  is_windows = true;
  is_mac = false;
  installed_sdks = λ w. codes "8.0.101" ∷ [];
  file_exists = λ path w. false;
  get_file_hash = λ path w. some (codes "abc");
  user_consents = false;
  download_folder = λ url. codes "installers";
  path_join = λ folder file. folder ++ b'/' ∷ file;
  dirname = λ path. codes "installers";
  wipe_directory = λ path w. w + 1;
  mkdir = λ path w. (ok tt, w + 1);
  download_file = λ url path w. (ok tt, w + 1);
  run_installer = λ path elevated w. (ok (if elevated then codes "3010" else codes "5"), w + 1);
  run_mac_backup = λ path w. (ok (codes "0"), w);
  backup_is_valid = λ w. false;
  run_uninstaller = λ path w. (ok (codes "0"), w);
  remove_mac_sdk = λ version w. (ok (codes "0"), w);
}

abbrev sdk_installer : WinMacGlobalInstaller
sdk_installer = record {
  installer_url = codes "https://builds.dotnet.microsoft.com/sdk.exe";
  installing_version = codes "8.0.102";
  installer_hash = some (codes "abc");
  cleanup_install_files = true;
}

-- Wiping, making the folder, downloading, two runs of the installer and wiping again.
ran : install_sdk windows sdk_installer 0 ≡ (ok (codes "0"), 6)
unfolding install_sdk global_windows_install_with_conflicting_version_already_exists conflicts
    get_major_minor get_major_minor_from_valid_version get_feature_band_from_version
    get_sdk_patch_version_string get_sdk_feature_band_or_patch_from_fully_specified_version
    is_number is_nan less_or_equal same_number is_space trim_start trim_end digit_value
    radix_literal scan_digits exponent_part unsigned_literal signed_literal numeric_literal
    to_number split ◌===◌ download_installer installer_file_has_valid_integrity execute_install
    handle_status
ran = refl

installed-RanVerified_example :
    ((true ≡ true) × IsThere windows sdk_installer 0 (codes "0") 6)
    ⊎ RanVerified windows sdk_installer 0 (codes "0") 6
installed-RanVerified_example = installed-RanVerified windows sdk_installer 0 (codes "0") 6 ran
