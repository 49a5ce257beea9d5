-- ===== src/Tests/Preferring.antt =====
-- A run of the theorem on ExistingPathResolver.ts.
use vscode_dotnet_runtime.Prelude.{
  ◌≡◌, refl, ◌⊎◌, true, false, Option, none, some, List, [], ◌∷◌, ◌++◌, Result, ok,
}
use vscode_dotnet_runtime.Text.{Text, codes, ◌===◌, split, includes_code}
use vscode_dotnet_runtime.Text.Number.{
  is_nan, less_or_equal, same_number, is_truthy, is_space, trim_start, trim_end, digit_value,
  radix_literal, scan_digits, exponent_part, unsigned_literal, signed_literal, numeric_literal,
  to_number,
}
use vscode_dotnet_runtime.Version.{
  get_major, get_major_minor, get_major_minor_from_valid_version, get_minor,
  get_runtime_patch_version_string, is_number, is_preview_version,
}
use vscode_dotnet_runtime.Install.{DotnetInstallMode, runtime, Architecture, named}
use vscode_dotnet_runtime.Collections.{get, has}
use vscode_dotnet_runtime.Listing.{
  Shell, trim, lines_of, runtime_info, get_runtimes, resolve_true_paths, resolve_true_path,
}
use vscode_dotnet_runtime.Condition.{
  greater_than_or_equal, equal, FindPathContext, DotnetListInfo, dotnet_meets_requirement,
  install_meets, string_version_meets_requirement, string_architecture_meets_requirement,
  dotnet_info_arch_to_node_arch, allow_preview, get_feature_band,
  get_patch_or_feature_band_with_patch, patch_meets, minor_meets, major_meets,
}
use vscode_dotnet_runtime.Tracker.Sessions.{read_sessions, paths_or_none, mark_install_as_in_use}
use vscode_dotnet_runtime.ExistingPath.{
  ExistingPaths, ExistingPathResolver, get_existing_path, provided_path_meets_api_requirement,
  resolve_existing_path,
}
use vscode_dotnet_runtime.ExistingPath.Setting.{IsSettingFor}
use vscode_dotnet_runtime.ExistingPath.Resolved.{HasMatch, resolved_path_meaning}

abbrev shell : Shell
shell = record {
  run = λ root arguments. record {
    status = codes "0";
    stdout = codes "Microsoft.NETCore.App 8.0.12 [/d]";
  };
  file = λ path. none;
  dirname = λ path. path;
  path_join = λ folder file. folder ++ b'/' ∷ file;
  dotnet_executable = codes "dotnet";
  default_architecture = codes "x64";
  dont_accept_unknown_arch = false;
  arch_flag_by_date = true;
}

abbrev installs : Text → DotnetInstallMode → Architecture → List DotnetListInfo
installs path mode architecture =
    record { mode = runtime; version = codes "8.0.12"; architecture = some (codes "x64") } ∷ []

abbrev settings : ExistingPaths
settings = record {
  individualized_extension_paths =
      some (record { extension_id = codes "ms.one"; path = codes "dotnet" } ∷ []);
  shared_existing_path = none;
}

abbrev context : FindPathContext
context = record {
  version = codes "8.0.1";
  mode = some runtime;
  architecture = named (codes "x64");
  version_spec_requirement = equal;
  reject_previews = true;
}

abbrev unmarked : ExistingPathResolver
unmarked = record {
  last_seen_non_true_path_value = none;
  tracker = record { installed = []; sessions = [] };
}

abbrev resolved : Result (Option Text) × ExistingPathResolver
resolved =
    resolve_existing_path shell installs (codes "session") false (some settings)
      (some (codes "ms.one")) context (some greater_than_or_equal) unmarked

given_path : resolved ≡ (ok (some (codes "/d/dotnet")), resolved.1)
unfolding resolve_existing_path get_existing_path provided_path_meets_api_requirement
    resolve_true_path resolve_true_paths get_runtimes lines_of runtime_info trim trim_start trim_end
    is_space split ◌===◌ dotnet_meets_requirement install_meets string_version_meets_requirement
    string_architecture_meets_requirement dotnet_info_arch_to_node_arch allow_preview
    get_feature_band get_patch_or_feature_band_with_patch patch_meets minor_meets major_meets
    get_major get_major_minor get_major_minor_from_valid_version get_minor
    get_runtime_patch_version_string is_number is_nan less_or_equal same_number is_truthy
    digit_value radix_literal scan_digits exponent_part unsigned_literal signed_literal
    numeric_literal to_number is_preview_version includes_code mark_install_as_in_use
given_path = refl

resolved_path_meaning_example :
    ((setting : Text) × IsSettingFor (some settings) (some (codes "ms.one")) setting
      × (resolved.1.last_seen_non_true_path_value ≡ some setting)
      × (((false ≡ true) × (codes "/d/dotnet" ≡ setting))
          ⊎ ((false ≡ false)
              × (resolve_true_path shell setting context.architecture ≡ some (codes "/d/dotnet"))
              × HasMatch shell installs
                  (codes "session")
                  context
                  (some greater_than_or_equal)
                  (codes "/d/dotnet"))))
    × (has
          (codes "/d/dotnet")
          (paths_or_none (get (codes "session") (read_sessions resolved.1.tracker)))
        ≡ true)
resolved_path_meaning_example =
    resolved_path_meaning shell installs (codes "session") false (some settings)
      (some (codes "ms.one")) context (some greater_than_or_equal) unmarked (codes "/d/dotnet")
      resolved.1 given_path
