-- ===== src/Linux.antt =====
-- The SDKs of Linux package managers: vscode-dotnet-runtime-library/src/Acquisition/
-- IDistroDotnetSDKProvider.ts, GenericDistroSDKProvider.ts with its subclasses for Debian and Red Hat,
-- and, in Linux/Resolver, LinuxVersionResolver.ts and LinuxGlobalInstaller.ts. Parameters (`Platform`):
-- running a command (which changes the machine `W`), `parseFloat` and `Math.floor`, Node's `path`,
-- whether a path exists, and the entry of the distro in distro-support.json. Commands are run with
-- failures as results; a prompt for elevation that fails is left out. Replacements hold no `$`.
pub mod Packages
pub mod Operations
pub mod Resolver
pub mod Cached
pub mod Reported
pub mod Allowed
use vscode_dotnet_runtime.Prelude.{
  ℕ, ◌+◌, Bool, true, false, ◌&&◌, ◌||◌, not, Option, none, some, List, [], ◌∷◌, ◌++◌, map, keep,
  find, if◌then◌else◌, drop, length, get_elem?, Result, ok, throw, type_error, Error, and_then,
}
use vscode_dotnet_runtime.Text.{Text, codes, ◌===◌, starts_with, split}
use vscode_dotnet_runtime.Text.Number.{JsNumber, nan, is_nan, less_or_equal, same_number}
use vscode_dotnet_runtime.Install.{DotnetInstallMode, sdk, runtime, aspnetcore}

pub record Command : Type 0 where
  pub command_root : Text
  pub command_parts : List Text
  pub run_under_sudo : Bool

pub record CommandResult : Type 0 where
  pub status : Text
  pub stdout : Text
  pub stderr : Text

-- `text.replace(substring, replacement)`: the first occurrence.
unfoldable pub replace_first : Text → Text → Text → Text
unfolding starts_with
replace_first substring replacement [] = if substring === [] then replacement else []
replace_first substring replacement (x ∷ xs) =
    let rest = replace_first substring replacement xs in
    if starts_with (x ∷ xs) substring
    then replacement ++ drop (length substring) (x ∷ xs)
    else x ∷ rest

unfoldable pub replace_substrings_in_command : Text → Text → Command → Command
unfolding replace_first
replace_substrings_in_command substring replacement command = record {
  command_root = replace_first substring replacement command.command_root;
  command_parts = map (replace_first substring replacement) command.command_parts;
  run_under_sudo = command.run_under_sudo;
}

unfoldable pub replace_substrings_in_commands : List Command → Text → Text → List Command
unfolding replace_substrings_in_command
replace_substrings_in_commands commands substring replacement =
    map (replace_substrings_in_command substring replacement) commands

-- An entry of `packages`, and one of `versions`.
pub record PackageSet : Type 0 where
  pub version : Text
  pub names : DotnetInstallMode → List Text

pub record VersionDetails : Type 0 where
  pub version : Text
  pub pre_install_commands : Option (List Command)

pub record DistroData : Type 0 where
  pub install_command : List Command
  pub uninstall_command : List Command
  pub update_command : List Command
  pub search_command : List Command
  pub package_lookup_command : List Command
  pub read_sym_link_command : List Command
  pub current_install_path_command : List Command
  pub current_installation_version_command : List Command
  pub installed_sdk_versions_command : List Command
  pub installed_runtime_versions_command : List Command
  pub expected_distro_feed_install_directory : Text
  pub expected_microsoft_feed_install_directory : Text
  pub packages : List PackageSet
  pub versions : List VersionDetails

-- The class of the provider.
pub data ProviderKind : Type 0 where
  generic debian red_hat : ProviderKind

pub record Platform (W : Type 0) : Type 0 where
  pub kind : ProviderKind
  pub distro_version : Text
  pub distro_data : DistroData
  pub execute : Command → W → CommandResult × W
  pub exists : Text → W → Bool
  pub parse_float : Text → JsNumber
  pub floor : JsNumber → JsNumber
  pub dirname : Text → Text
  pub resolve : Text → Text
  pub path_join : Text → Text → Text
  pub dotnet_executable : Text

pub record LinuxPackageCollection : Type 0 where
  pub version : Text
  pub packages : List Text

-- The fields of the provider that change, and the machine.
pub record Provider (W : Type 0) : Type 0 where
  pub is_mid_feed_injection : Bool
  pub cached_my_version_packages : Option (List LinuxPackageCollection)
  pub machine : W

-- What a method does.
abbrev pub M : Type 0 → Type 0 → Type 0
M W A = Provider W → Result A × Provider W

infixl 5 ◌>>=◌ ◌>>◌
abbrev pub ◌>>=◌ : {W A B : Type 0} → M W A → (A → M W B) → M W B
◌>>=◌ m f s = and_then (m s) f

abbrev pub ◌>>◌ : {W B : Type 0} → M W (Unit {0}) → M W B → M W B
m >> k = m >>= λ _. k

abbrev pub pure : {W A : Type 0} → A → M W A
pure a s = (ok a, s)

abbrev pub lift : {W A : Type 0} → Result A → M W A
lift r s = (r, s)

abbrev pub fail : {W A : Type 0} → Error → M W A
fail e s = (throw e, s)

-- `a < b` on numbers.
abbrev pub less_than : JsNumber → JsNumber → Bool
less_than a b = less_or_equal a b && not (less_or_equal b a)

-- `Math.max` and `Math.min` of a list that is not empty.
abbrev pub maximum : JsNumber → List JsNumber → JsNumber
maximum x [] = x
maximum x (y ∷ ys) =
    maximum (if is_nan x || is_nan y then nan else if less_or_equal x y then y else x) ys

abbrev pub minimum : JsNumber → List JsNumber → JsNumber
minimum x [] = x
minimum x (y ∷ ys) =
    minimum (if is_nan x || is_nan y then nan else if less_or_equal y x then y else x) ys

module _ {W : Type 0} (p : Platform W) where
  -- `findMostSimilarVersion`; without known versions it is infinite.
  abbrev pub same_major : Text → List JsNumber → List JsNumber
  same_major my_version known =
      keep (λ x. same_number (p.floor x) (p.floor (p.parse_float my_version))) known

  abbrev pub lower_major : Text → List JsNumber → List JsNumber
  lower_major my_version known = keep (λ x. less_than x (p.floor (p.parse_float my_version))) known

  unfoldable pub find_most_similar_version : Text → List JsNumber → JsNumber
  unfolding is_nan
  find_most_similar_version my_version known = elim (same_major my_version known) [
    | x ∷ xs ↦ maximum x xs
    | [] ↦ elim (lower_major my_version known) [
      | x ∷ xs ↦ maximum x xs
      | [] ↦ elim known [ x ∷ xs ↦ minimum x xs | [] ↦ JsNumber.infinity false ]
    ]
  ]

  -- The details of the running version, or of the closest known one.
  unfoldable pub my_version_details : Option VersionDetails
  unfolding find_most_similar_version
  my_version_details =
      let versions = p.distro_data.versions in
      let closest =
        find_most_similar_version p.distro_version (map (λ v. p.parse_float v.version) versions) in
      elim (find (λ v. v.version === p.distro_version) versions) [
        | some v ↦ some v
        | none ↦ find (λ v. same_number (p.parse_float v.version) closest) versions
      ]

  -- `this.myVersionDetails().hasOwnProperty('preInstallCommands')`. The method of Red Hat's provider
  -- gives a list of details, which has no such property.
  unfoldable pub pre_install_of : ProviderKind → Result (Option (List Command))
  unfolding my_version_details
  pre_install_of red_hat = ok none
  pre_install_of _ = elim my_version_details [
    | none ↦ throw type_error
    | some v ↦ ok v.pre_install_commands
  ]

  abbrev pub run_command : Command → M W CommandResult
  run_command command s =
      let (result, w) = p.execute command s.machine in (ok result, record s { machine = w })

  unfoldable pub execute_multiple_commands : List Command → M W (List CommandResult)
  execute_multiple_commands [] = pure []
  execute_multiple_commands (c ∷ cs) =
      let rest = execute_multiple_commands cs in do r ← run_command c; rs ← rest; pure (r ∷ rs)

  -- The first result; without one the source throws.
  abbrev pub first_result : List CommandResult → M W CommandResult
  first_result [] = fail type_error
  first_result (r ∷ rs) = pure r

  abbrev pub set_injecting : Bool → M W (Unit {0})
  set_injecting b s = (ok tt, record s { is_mid_feed_injection = b })

  -- A throw on the way leaves the flag set.
  abbrev pub injected : M W (Unit {0})
  injected = do
    set_injecting true
    pre_install ← lift (pre_install_of p.kind)
    elim pre_install [
      | none ↦ pure tt
      | some commands ↦ (execute_multiple_commands commands >>= λ _. pure tt)
    ]
    set_injecting false

  unfoldable pub inject_pmc_feed : M W (Unit {0})
  unfolding pre_install_of execute_multiple_commands
  inject_pmc_feed s = if s.is_mid_feed_injection then (ok tt, s) else injected s
