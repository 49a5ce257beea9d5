-- ===== src/Tests/Packaging.antt =====
-- Runs of the theorems on LinuxVersionResolver.ts and the providers of SDKs.
use vscode_dotnet_runtime.Prelude.{
  ℕ, ◌+◌, ◌≡◌, refl, sym, ap, ok_injective, ◌⊎◌, true, false, Option, none, some, List, [], ◌∷◌,
  ◌++◌, if◌then◌else◌, Bool-cases, inl, inr, ok,
}
use vscode_dotnet_runtime.Text.{Text, codes, ◌===◌, starts_with, split}
use vscode_dotnet_runtime.Text.Number.{
  is_nan, less_or_equal, same_number, is_space, trim_start, trim_end, digit_value, radix_literal,
  scan_digits, exponent_part, unsigned_literal, signed_literal, numeric_literal, to_number,
}
use vscode_dotnet_runtime.Version.{
  is_set, is_number, get_major, get_major_minor, get_major_minor_from_valid_version,
  get_feature_band_from_version,
}
use vscode_dotnet_runtime.Install.{DotnetInstallMode, sdk, runtime, aspnetcore}
use vscode_dotnet_runtime.Linux.{
  Command, CommandResult, DistroData, Platform, Provider, LinuxPackageCollection, generic,
  execute_multiple_commands, replace_substrings_in_commands, replace_substrings_in_command,
  replace_first, my_version_details, pre_install_of, find_most_similar_version, inject_pmc_feed,
}
use vscode_dotnet_runtime.Listing.{trim}
use vscode_dotnet_runtime.Linux.Packages.{
  my_version_packages, search_packages, available_packages, package_is_available,
  is_package_found_in_search, packages_after_injection, json_dotnet_version,
  my_dotnet_version_package_name, package_for,
}
use vscode_dotnet_runtime.Linux.Operations.{
  DotnetDistroSupportStatus, distro, get_dotnet_version_support_status,
  get_installed_global_dotnet_path_if_exists, is_out_of_range, status_in, has_packages_for,
  is_dotnet_version_supported, install_dotnet,
}
use vscode_dotnet_runtime.Linux.Resolver.{
  validate_and_install_sdk, verify_no_conflict_install_type_exists, verify_no_custom_install_exists,
  update_or_reject_if_version_request_does_not_require_install,
}
use vscode_dotnet_runtime.Linux.Cached.{support_status_is_stable}
use vscode_dotnet_runtime.Linux.Reported.{reported_statuses, failed_install_is_hidden}
use vscode_dotnet_runtime.Linux.Allowed.{IsAllowed, installed_where-IsAllowed}

abbrev distro_command : Text → Command
distro_command root = record {
  command_root = root;
  command_parts = codes "{packageName}" ∷ [];
  run_under_sudo = false;
}

abbrev names : DotnetInstallMode → List Text
names sdk = codes "dotnet-sdk-8.0" ∷ []
names runtime = codes "dotnet-runtime-8.0" ∷ []
names aspnetcore = codes "aspnetcore-runtime-8.0" ∷ []

abbrev ubuntu : DistroData
ubuntu = record {
  install_command = distro_command (codes "update") ∷ distro_command (codes "install") ∷ [];
  uninstall_command = distro_command (codes "remove") ∷ [];
  update_command = distro_command (codes "update") ∷ [];
  search_command = distro_command (codes "search") ∷ [];
  package_lookup_command = distro_command (codes "list") ∷ [];
  read_sym_link_command = distro_command (codes "readlink") ∷ [];
  current_install_path_command = distro_command (codes "which") ∷ [];
  current_installation_version_command = distro_command (codes "version") ∷ [];
  installed_sdk_versions_command = distro_command (codes "sdks") ∷ [];
  installed_runtime_versions_command = distro_command (codes "runtimes") ∷ [];
  expected_distro_feed_install_directory = codes "/usr/lib/dotnet";
  expected_microsoft_feed_install_directory = codes "/usr/share/dotnet";
  packages = record { version = codes "8.0"; names = names } ∷ [];
  versions = record { version = codes "24.04"; pre_install_commands = none } ∷ [];
}

-- Only a search succeeds: no `dotnet` is found_packages, and nothing can be installed. The machine counts the
-- commands.
abbrev answer : Command → CommandResult
answer c =
    if c.command_root === codes "search"
    then record { status = codes "0"; stdout = codes "found_packages"; stderr = [] }
    else record { status = codes "100"; stdout = []; stderr = codes "E: locked" }

abbrev platform : Platform ℕ
platform = record {
  kind = generic;
  distro_version = codes "24.04";
  distro_data = ubuntu;
  execute = λ c n. (answer c, n + 1);
  exists = λ path n. false;
  parse_float = to_number;
  floor = λ x. x;
  dirname = λ path. path;
  resolve = λ path. path;
  path_join = λ folder file. folder ++ file;
  dotnet_executable = codes "dotnet";
}

abbrev fresh : Provider ℕ
fresh = record { is_mid_feed_injection = false; cached_my_version_packages = none; machine = 0 }

abbrev found_packages : List LinuxPackageCollection
found_packages = record { version = codes "8.0"; packages = codes "dotnet-sdk-8.0" ∷ [] } ∷ []

abbrev after : ℕ → Provider ℕ
after n = record {
  is_mid_feed_injection = false;
  cached_my_version_packages = some found_packages;
  machine = n;
}

searched : my_version_packages platform sdk false fresh ≡ (ok found_packages, after 1)
unfolding my_version_packages search_packages available_packages package_is_available
    execute_multiple_commands replace_substrings_in_commands is_package_found_in_search trim ◌===◌
searched = refl

supported :
    get_dotnet_version_support_status platform (codes "8.0.100") sdk fresh ≡ (ok distro, after 1)
unfolding split starts_with ◌===◌ get_feature_band_from_version get_major get_major_minor
    get_major_minor_from_valid_version is_number less_or_equal same_number to_number numeric_literal
    signed_literal unsigned_literal scan_digits radix_literal digit_value exponent_part is_nan
    is_space trim_start trim_end trim my_version_packages search_packages available_packages
    package_is_available packages_after_injection execute_multiple_commands
    replace_substrings_in_commands replace_substrings_in_command replace_first
    is_package_found_in_search json_dotnet_version has_packages_for status_in my_version_details
    pre_install_of find_most_similar_version get_dotnet_version_support_status is_out_of_range
supported = refl

support_status_is_stable_example :
    get_dotnet_version_support_status platform (codes "8.0.100") sdk (after 1)
    ≡ (ok distro, after 1)
support_status_is_stable_example =
    support_status_is_stable platform (codes "8.0.100") sdk fresh distro (after 1) supported

-- One search, `which`, and the two commands of the installation, both of which fail.
validated : validate_and_install_sdk platform (codes "8.0.100") fresh ≡ (ok (codes "0"), after 4)
unfolding validate_and_install_sdk is_dotnet_version_supported install_dotnet inject_pmc_feed
    verify_no_conflict_install_type_exists verify_no_custom_install_exists
    update_or_reject_if_version_request_does_not_require_install
    get_installed_global_dotnet_path_if_exists my_dotnet_version_package_name package_for split
    starts_with ◌===◌ get_feature_band_from_version get_major get_major_minor
    get_major_minor_from_valid_version is_number less_or_equal same_number to_number numeric_literal
    signed_literal unsigned_literal scan_digits radix_literal digit_value exponent_part is_nan
    is_space trim_start trim_end trim my_version_packages search_packages available_packages
    package_is_available packages_after_injection execute_multiple_commands
    replace_substrings_in_commands replace_substrings_in_command replace_first
    is_package_found_in_search json_dotnet_version has_packages_for status_in my_version_details
    pre_install_of find_most_similar_version get_dotnet_version_support_status is_out_of_range
validated = refl

reported_statuses_example : (codes "0" ≡ codes "0") ⊎ (codes "0" ≡ codes "1")
reported_statuses_example =
    reported_statuses platform (codes "8.0.100") fresh (codes "0") (after 4) validated

always_answers : (c : Command) (n : ℕ) → is_set (platform.execute c n).0.status ≡ true
always_answers c n = elim (Bool-cases (c.command_root === codes "search")) [
  | inl h ↦ rw h refl
  | inr h ↦ rw h refl
]

nothing_found :
    (u : Provider ℕ) (existing : Option Text) (v : Provider ℕ)
    → get_installed_global_dotnet_path_if_exists platform u ≡ (ok existing, v)
    → existing ≡ none
unfolding get_installed_global_dotnet_path_if_exists execute_multiple_commands ◌===◌
nothing_found u existing v e = sym (ok_injective (ap (λ r. r.0) e))

failed_install_is_hidden_example : codes "0" ≡ codes "0"
failed_install_is_hidden_example =
    failed_install_is_hidden platform always_answers nothing_found (codes "8.0.100") fresh
      (codes "0") (after 4) validated

installed_where-IsAllowed_example :
    (status : DotnetDistroSupportStatus) × ((existing : Option Text) × ((u : Provider ℕ)
        × (get_dotnet_version_support_status platform (codes "8.0.100") sdk fresh ≡ (ok status, u))
        × IsAllowed platform (codes "8.0.100") u status existing))
installed_where-IsAllowed_example =
    installed_where-IsAllowed platform (codes "8.0.100") fresh (codes "0") (after 4) validated
