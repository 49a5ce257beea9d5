-- ===== src/ExistingPath.antt =====
-- vscode-dotnet-runtime-library/src/Acquisition/ExistingPathResolver.ts: the path of `dotnet` that the
-- user has set for an extension, or for all. Parameters: the shell of `DotnetResolver`, and
-- `installs`, the installs that `dotnet` at a path lists, as the validator of conditions takes them.
-- Warnings to the user are left out.
pub mod Setting
pub mod Resolved
use vscode_dotnet_runtime.Prelude.{
  Bool, true, false, ◌||◌, Option, none, some, List, [], ◌∷◌, keep, if◌then◌else◌, Result, ok,
  throw,
}
use vscode_dotnet_runtime.Text.{Text, codes, ◌===◌}
use vscode_dotnet_runtime.Version.{is_set}
use vscode_dotnet_runtime.Install.{DotnetInstallMode, Architecture}
use vscode_dotnet_runtime.Listing.{Shell, no_path, resolve_true_path}
use vscode_dotnet_runtime.Condition.{
  DotnetVersionSpecRequirement, equal, FindPathContext, DotnetListInfo, dotnet_meets_requirement,
}
use vscode_dotnet_runtime.Tracker.State.{ExtensionState}
use vscode_dotnet_runtime.Tracker.Sessions.{mark_install_as_in_use}

-- IExtensionContext.ts
pub record LocalExistingPath : Type 0 where
  pub extension_id : Text
  pub path : Text

pub record ExistingPaths : Type 0 where
  pub individualized_extension_paths : Option (List LocalExistingPath)
  pub shared_existing_path : Option Text

-- The resolver's field and the tracker's state.
pub record ExistingPathResolver : Type 0 where
  pub last_seen_non_true_path_value : Option Text
  pub tracker : ExtensionState

-- A text that counts as given.
abbrev pub given : Option Text → Option Text
given none = none
given (some []) = none
given (some (c ∷ cs)) = some (c ∷ cs)

abbrev pub pairs : ExistingPaths → List LocalExistingPath
pairs e = elim e.individualized_extension_paths [ none ↦ [] | some ps ↦ ps ]

-- The path of the first pair; the shared one without a pair.
abbrev pub first_path : List LocalExistingPath → Option Text → Option Text
first_path [] shared = given shared
first_path (p ∷ ps) shared = some p.path

abbrev pub path_for : Option Text → ExistingPaths → Option Text
path_for none e = given e.shared_existing_path
path_for (some id) e =
    first_path (keep (λ p. p.extension_id === id) (pairs e)) e.shared_existing_path

-- Without a pair and without a shared path, both branches of the source give null.
unfoldable pub get_existing_path : Option ExistingPaths → Option Text → Option Text
get_existing_path none extension_id = none
get_existing_path (some e) extension_id = path_for (given extension_id) e

abbrev pub or_equal : Option DotnetVersionSpecRequirement → DotnetVersionSpecRequirement
or_equal none = equal
or_equal (some requirement) = requirement

-- The context of the request, whose previews are not rejected.
abbrev pub with_requirement :
    FindPathContext → Option DotnetVersionSpecRequirement → FindPathContext
with_requirement context requirement = record context {
  version_spec_requirement = or_equal requirement;
  reject_previews = false;
}

module _ (shell : Shell) (installs : Text → DotnetInstallMode → Architecture → List DotnetListInfo)
    (this_session : Text) where
  unfoldable pub provided_path_meets_api_requirement :
      Text → FindPathContext → Option DotnetVersionSpecRequirement → Result Bool
  provided_path_meets_api_requirement existing_path context requirement =
      dotnet_meets_requirement (installs existing_path) shell.default_architecture
        (with_requirement context requirement)

  -- The path that is tested: the setting itself, or the place it leads to.
  abbrev pub tested_path : Bool → Option Text → Architecture → Option Text
  tested_path allow_invalid_path none architecture = none
  tested_path true (some path) architecture = some path
  tested_path false (some path) architecture =
      if no_path path then none else resolve_true_path shell path architecture

  abbrev pub marked : Text → ExistingPathResolver → ExistingPathResolver
  marked path r = record r { tracker = mark_install_as_in_use this_session path r.tracker }

  abbrev pub when_met :
      Bool → Result Bool → Text → ExistingPathResolver → Result (Option Text) × ExistingPathResolver
  when_met allow_invalid_path (throw e) path r = (throw e, r)
  when_met allow_invalid_path (ok meets) path r =
      if meets || allow_invalid_path then (ok (some path), marked path r) else (ok none, r)

  abbrev pub when_tested :
      Bool
      → Option Text
      → FindPathContext
      → Option DotnetVersionSpecRequirement
      → ExistingPathResolver
      → Result (Option Text) × ExistingPathResolver
  when_tested allow_invalid_path none context requirement r = (ok none, r)
  when_tested allow_invalid_path (some path) context requirement r =
      when_met allow_invalid_path (provided_path_meets_api_requirement path context requirement)
        path r

  unfoldable pub resolve_existing_path :
      Bool
      → Option ExistingPaths
      → Option Text
      → FindPathContext
      → Option DotnetVersionSpecRequirement
      → ExistingPathResolver
      → Result (Option Text) × ExistingPathResolver
  resolve_existing_path allow_invalid_path existing_paths extension_id context requirement r =
      let existing_path = get_existing_path existing_paths extension_id in
      when_tested allow_invalid_path
        (given (tested_path allow_invalid_path existing_path context.architecture)) context
        requirement (record r { last_seen_non_true_path_value = existing_path })
