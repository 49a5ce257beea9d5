-- ===== src/Worker.antt =====
-- vscode-dotnet-runtime-library/src/Acquisition/DotnetCoreAcquisitionWorker.ts: acquiring and
-- uninstalling. The worker's state is the tracker's, the disk and the memory cache. Each operation
-- runs under its lock. What the machine and the package of the cache do is the parameter `Host`.
pub mod Local
pub mod Global
pub mod Existing
pub mod Tracked
pub mod Validated
pub mod Acquired
pub mod Wiped
pub mod Uninstalled
pub mod Failed
pub mod Held
use vscode_dotnet_runtime.Prelude.{
  ℕ, Bool, true, false, ◌&&◌, ◌||◌, not, Option, none, some, List, [], ◌==◌, if◌then◌else◌, any_of,
  Result, ok, throw, ◌>>=◌, and_then,
}
use vscode_dotnet_runtime.Text.{Text, codes, ◌===◌, includes}
use vscode_dotnet_runtime.Version.{get_major_minor}
use vscode_dotnet_runtime.Install.{
  DotnetInstallMode, sdk, DotnetInstallType, local, global, Architecture, null, undefined, named,
  AcquireContext, DotnetInstall, is_global_type, same_mode,
}
use vscode_dotnet_runtime.Tracker.State.{
  InstallRecord, ExtensionState, get_existing_installs, equivalent_to,
}
use vscode_dotnet_runtime.Tracker.Sessions.{
  ProcessEnvironment, install_has_no_live_dependents_besides_id,
}
use vscode_dotnet_runtime.Tracker.Installs.{
  add_version_to_extension_state, remove_version_from_extension_state, report_successful_uninstall,
  install_has_no_registered_dependents_besides_id,
}
use vscode_dotnet_runtime.Condition.{
  FindPathContext, equal, DotnetListInfo, dotnet_meets_requirement,
}
use vscode_dotnet_runtime.Cache.{NodeCache, LocalMemoryCache, invalidate_entries_containing}
use vscode_dotnet_runtime.Files.{FileSystem, validate_dotnet_install, wipe_directory}

-- `list_sdks` is the status and the output of `dotnet --list-sdks --arch`, and `dotnet_installs`
-- the list that `DotnetResolver` reads from an executable.
pub record Host (D C V : Type 0) : Type 0 where
  pub fs : FileSystem D
  pub node_cache : NodeCache C V
  pub pretty : Text → List Text → Text
  pub install_dir : Text → Text
  pub default_architecture : Text
  pub this_session : Text
  pub is_session_dead : Text → Bool
  pub environment : ProcessEnvironment
  pub is_linux : Bool
  pub using_no_install_invoker : Bool
  pub dotnet_installs : Text → D → DotnetInstallMode → Architecture → List DotnetListInfo
  pub list_sdks : D → Text × Text

pub record Machine (D C : Type 0) : Type 0 where
  pub state : ExtensionState
  pub disk : D
  pub cache : LocalMemoryCache C

abbrev pub text_or_empty : Option Text → Text
text_or_empty none = []
text_or_empty (some t) = t

abbrev pub is_global_request : Option DotnetInstallType → Bool
is_global_request none = false
is_global_request (some type) = is_global_type type

module _ {D C V : Type 0} (host : Host D C V) where
  abbrev pub dotnet_path_of : DotnetInstall → Text
  dotnet_path_of install =
      host.fs.join (host.install_dir install.install_id) host.fs.dotnet_executable

  unfoldable pub get_default_internal_architecture : Architecture → Text
  get_default_internal_architecture (named architecture) = architecture
  get_default_internal_architecture null = codes "null"
  get_default_internal_architecture undefined = host.default_architecture

  abbrev pub validated : Text → D → Result (Unit {0})
  validated path d = validate_dotnet_install host.fs path false true d >>= λ _. ok tt

  abbrev with_state : Result ExtensionState → Machine D C → Result (Unit {0}) × Machine D C
  with_state (ok s) m = (ok tt, record m { state = s })
  with_state (throw error) m = (throw error, m)

  -- The tracker's methods, as the worker calls them.
  abbrev pub track_installed_version :
      AcquireContext → DotnetInstall → Text → Machine D C → Result (Unit {0}) × Machine D C
  track_installed_version ctx install path m =
      with_state
        (add_version_to_extension_state host.default_architecture host.this_session
          ctx.requesting_extension_id install path (validated path m.disk) m.state)
        m

  abbrev pub untrack_installed_version :
      AcquireContext → DotnetInstall → Bool → Machine D C → Machine D C
  untrack_installed_version ctx install force m = record m {
    state =
        remove_version_from_extension_state host.default_architecture ctx.requesting_extension_id
          install force m.state;
  }

  abbrev pub report_uninstall : DotnetInstall → Machine D C → Machine D C
  report_uninstall install m = record m {
    state = report_successful_uninstall host.default_architecture install m.state;
  }

  abbrev pub invalidate_entries : Text → Machine D C → Machine D C
  invalidate_entries text m = record m {
    cache = invalidate_entries_containing host.node_cache host.pretty text m.cache;
  }

  -- `useLiveDependentCheck`, or the registered owners.
  abbrev pub no_relevant_dependents :
      AcquireContext → DotnetInstall → Bool → ExtensionState → Bool × ExtensionState
  no_relevant_dependents ctx install use_live_dependent_check s =
      if use_live_dependent_check
      then install_has_no_live_dependents_besides_id host.this_session host.is_session_dead
          host.environment host.fs.dirname host.default_architecture (dotnet_path_of install) true
          (text_or_empty ctx.requesting_extension_id) (some install) s
      else install_has_no_registered_dependents_besides_id host.default_architecture install false
          (text_or_empty ctx.requesting_extension_id) s

  -- The condition that an existing install has to meet.
  abbrev pub requirement_of : AcquireContext → FindPathContext
  requirement_of ctx = record {
    version = ctx.version;
    mode = some ctx.mode;
    architecture = ctx.architecture;
    version_spec_requirement = equal;
    reject_previews = false;
  }

  abbrev pub still_valid : AcquireContext → Text → D → Result Bool
  still_valid ctx path d =
      if host.using_no_install_invoker
      then ok true
      else validate_dotnet_install host.fs path false true d >>= λ _.
          dotnet_meets_requirement (host.dotnet_installs path d) host.default_architecture
            (requirement_of ctx)

  unfoldable pub sdk_is_found : AcquireContext → D → Result Bool
  sdk_is_found ctx d =
      let (status, stdout) = host.list_sdks d in
      if not (status === codes "0")
      then ok false
      else if host.is_linux && (same_mode ctx.mode sdk && is_global_request ctx.install_type)
      then (get_major_minor ctx.version >>= λ major_minor. ok (includes stdout major_minor))
      else ok (includes stdout ctx.version)
