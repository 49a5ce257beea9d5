-- ===== src/Listing.antt =====
-- vscode-dotnet-runtime-library/src/Acquisition/DotnetResolver.ts: the installs that an
-- executable `dotnet` lists. Parameters: what running a command prints (`run`, by the command's
-- root and arguments), the content of a file, Node's `path`, `os.arch()`, one variable of the
-- environment and whether the host may know the flag `--arch` by the date. The variable
-- DOTNET_MULTILEVEL_LOOKUP, which is set for the command and put back, and the alias in the
-- command cache are left out. So is the error of the source at a runtime's line without a
-- version, which `dotnet` does not print.
pub mod Printed
pub mod Matching
use vscode_dotnet_runtime.Prelude.{
  ℕ, Bool, true, false, ◌||◌, ◌&&◌, not, Option, none, some, List, [], ◌∷◌, ◌++◌, map, length,
  get_elem?, get_or, drop, keep, find, any_of, if◌then◌else◌, ◌==◌,
}
use vscode_dotnet_runtime.Text.{Text, codes, ◌===◌, split, starts_with}
use vscode_dotnet_runtime.Text.Split.{join}
use vscode_dotnet_runtime.Text.Number.{trim_start, trim_end}
use vscode_dotnet_runtime.Install.{
  DotnetInstallMode, sdk, runtime, aspnetcore, Architecture, null, undefined, named, same_mode,
}
use vscode_dotnet_runtime.Executable
use vscode_dotnet_runtime.Executable.{
  x86, x64, arm64, other, Buffer, get_executable_architecture, is_known_architecture,
}

-- `IDotnetListInfo`; a part that is not there is `none`.
pub record ListInfo : Type 0 where
  pub mode : DotnetInstallMode
  pub version : Option Text
  pub directory : Text
  pub architecture : Option Text

pub record CommandResult : Type 0 where
  pub status : Text
  pub stdout : Text

unfoldable pub trim : Text → Text
unfolding trim_start trim_end
trim t = trim_end (trim_start t)

abbrev pub is_filled : Text → Bool
is_filled [] = false
is_filled (x ∷ xs) = true

-- `stdout.split('\n').map(trim).filter(Boolean)`
unfoldable pub lines_of : Text → List Text
unfolding trim split
lines_of stdout = keep is_filled (map trim (split 10 stdout))

abbrev pub without_last : Text → Text
without_last [] = []
without_last (x ∷ []) = []
without_last (x ∷ y ∷ xs) = x ∷ without_last (y ∷ xs)

-- `text.slice(1, -1)`
abbrev pub inner : Text → Text
inner t = without_last (drop 1 t)

abbrev pub mode_of_name : Text → DotnetInstallMode
mode_of_name name =
    if name === codes "Microsoft.AspNetCore.App"
    then aspnetcore
    else if name === codes "Microsoft.NETCore.App"
    then runtime
    else sdk

unfoldable pub sdk_info : Text → ListInfo
unfolding split
sdk_info line = record {
  mode = sdk;
  version = get_elem? (split b' ' line) 0;
  directory = inner (join b' ' (drop 1 (split b' ' line)));
  architecture = none;
}

unfoldable pub runtime_info : Text → ListInfo
unfolding split ◌===◌
runtime_info line = record {
  mode = mode_of_name (get_or (split b' ' line) 0 []);
  version = get_elem? (split b' ' line) 1;
  directory = inner (join b' ' (drop 2 (split b' ' line)));
  architecture = none;
}

abbrev pub quoted : Text → Text
quoted path = b'"' ∷ path ++ b'"' ∷ []

abbrev pub no_path : Text → Bool
no_path path = path === [] || path === codes "\"\""

-- What a name of `ExecutableArchitectureDetector` stands for.
abbrev pub architecture_name : Option Executable.Architecture → Option Text
architecture_name none = none
architecture_name (some x86) = some (codes "x86")
architecture_name (some x64) = some (codes "x64")
architecture_name (some arm64) = some (codes "arm64")
architecture_name (some other) = some (codes "other")

-- `requested ?? null`, and `requested ?? otherwise`.
abbrev pub requested_or_null : Architecture → Option Text
requested_or_null (named a) = some a
requested_or_null _ = none

abbrev pub requested_or : Architecture → Text → Text
requested_or (named a) otherwise = a
requested_or _ otherwise = otherwise

abbrev pub same_option : Option Text → Option Text → Bool
same_option none none = true
same_option (some a) (some b) = a === b
same_option _ _ = false

abbrev pub starts_with_some : Option Text → Text → Bool
starts_with_some none p = false
starts_with_some (some v) p = starts_with v p

pub record Shell : Type 0 where
  pub run : Text → List Text → CommandResult
  pub file : Text → Option Buffer
  pub dirname : Text → Text
  pub path_join : Text → Text → Text
  pub dotnet_executable : Text
  pub default_architecture : Text
  pub dont_accept_unknown_arch : Bool
  pub arch_flag_by_date : Bool

module _ (shell : Shell) where
  unfoldable pub get_sdks : Text → Text → List ListInfo
  unfolding lines_of sdk_info ◌===◌
  get_sdks path architecture =
      let result =
        shell.run (quoted path) (codes "--list-sdks" ∷ codes "--arch" ∷ architecture ∷ []) in
      if no_path path
      then []
      else if not (result.status === codes "0")
      then []
      else map sdk_info (lines_of result.stdout)

  unfoldable pub get_runtimes : Text → Architecture → List ListInfo
  unfolding lines_of runtime_info ◌===◌
  get_runtimes path architecture =
      let result = shell.run (quoted path) (
        codes "--list-runtimes"
        ∷ codes "--arch"
        ∷ requested_or architecture shell.default_architecture
        ∷ []) in
      if no_path path
      then []
      else if not (result.status === codes "0")
      then []
      else keep (λ x. not (same_mode x.mode sdk)) (map runtime_info (lines_of result.stdout))

  -- The executable two folders above the first runtime.
  abbrev pub true_path_of : ListInfo → Text
  true_path_of first =
      shell.path_join (shell.dirname (shell.dirname first.directory)) shell.dotnet_executable

  abbrev pub first_true_path : List ListInfo → List Text
  first_true_path [] = []
  first_true_path (first ∷ rest) = true_path_of first ∷ []

  unfoldable pub resolve_true_paths : List Text → Architecture → List Text
  unfolding get_runtimes
  resolve_true_paths [] suggested = []
  resolve_true_paths (path ∷ paths) suggested =
      first_true_path
        (get_runtimes path (named (requested_or suggested shell.default_architecture)))
      ++ resolve_true_paths paths suggested

  unfoldable pub resolve_true_path : Text → Architecture → Option Text
  unfolding resolve_true_paths
  resolve_true_path path suggested = get_elem? (resolve_true_paths (path ∷ []) suggested) 0

  unfoldable pub host_supports_arch_flag : Text → List ListInfo → Bool
  unfolding starts_with ◌===◌
  host_supports_arch_flag path available =
      let may_support =
        any_of
          (λ install.
            starts_with_some install.version (codes "10.0")
            || starts_with_some install.version (codes "11.0"))
          available
        || shell.arch_flag_by_date in
      let result =
        shell.run (quoted path)
          (codes "--list-runtimes" ∷ codes "--arch" ∷ codes "invalid-arch" ∷ []) in
      may_support && not (result.status === codes "0")

  abbrev architecture_in : Option Text → Option Text
  architecture_in none = some (if shell.dont_accept_unknown_arch then codes "unknown" else [])
  architecture_in (some line) = get_elem? (split b' ' line) 1

  unfoldable pub get_host_architecture_via_info : Text → Option Text
  unfolding lines_of starts_with ◌===◌ split
  get_host_architecture_via_info path =
      let result = shell.run (quoted path) (codes "--info" ∷ []) in
      if no_path path
      then some []
      else architecture_in
          (find (λ line. starts_with line (codes "Architecture:")) (lines_of result.stdout))

  -- The architecture by the file, or by what the host says of itself.
  abbrev pub architecture_at : Text → List ListInfo → Architecture → Text → Option Text
  architecture_at path available requested true_path =
      let detected = get_executable_architecture (shell.file true_path) (shell.file true_path) in
      if is_known_architecture detected
      then architecture_name detected
      else if host_supports_arch_flag true_path available
      then requested_or_null requested
      else get_host_architecture_via_info path

  unfoldable pub resolve_host_architecture : Text → List ListInfo → Architecture → Option Text
  unfolding resolve_true_path get_executable_architecture is_known_architecture
      host_supports_arch_flag get_host_architecture_via_info
  resolve_host_architecture path available requested = elim (resolve_true_path path requested) [
    | none ↦ none
    | some [] ↦ none
    | some (x ∷ xs) ↦ architecture_at path available requested (x ∷ xs)
  ]

  -- `requestedArchitecture && resolved !== requestedArchitecture`
  abbrev pub differs : Architecture → Option Text → Bool
  differs (named (x ∷ xs)) resolved = not (same_option resolved (some (x ∷ xs)))
  differs _ resolved = false

  abbrev pub at_architecture : Option Text → ListInfo → ListInfo
  at_architecture resolved install = record install { architecture = resolved }

  -- What becomes of the listed installs.
  abbrev pub with_architecture : Text → Architecture → List ListInfo → List ListInfo
  with_architecture path requested [] = []
  with_architecture path requested (x ∷ xs) =
      let resolved = resolve_host_architecture path (x ∷ xs) requested in
      if differs requested resolved then [] else map (at_architecture resolved) (x ∷ xs)

  unfoldable pub get_dotnet_installs : Text → DotnetInstallMode → Architecture → List ListInfo
  unfolding get_sdks get_runtimes resolve_host_architecture
  get_dotnet_installs path mode requested = with_architecture path requested (
      if same_mode mode sdk
      then get_sdks path (requested_or requested shell.default_architecture)
      else get_runtimes path (named (requested_or requested shell.default_architecture)))
