-- ===== src/Worker/Existing.antt =====
-- DotnetCoreAcquisitionWorker.ts: the public operations, which name an install from a request and
-- acquire it, look for one that exists, or uninstall all.
use vscode_dotnet_runtime.Prelude.{
  Bool, true, false, ◌&&◌, ◌||◌, Option, none, some, List, [], ◌∷◌, if◌then◌else◌, keep, Result, ok,
  throw, Error, type_error, system_error, dotnet_acquisition_error, ◌>>=◌, and_then,
}
use vscode_dotnet_runtime.Text.{Text, ◌===◌}
use vscode_dotnet_runtime.Version.{get_major_minor}
use vscode_dotnet_runtime.Install.{
  DotnetInstallMode, DotnetInstallType, local, Architecture, null, undefined, named, AcquireContext,
  DotnetInstall, same_mode, same_bool, same_architecture, is_global_type, get_dotnet_install_info,
  get_install_id_custom_architecture, get_install_from_context,
}
use vscode_dotnet_runtime.Tracker.State.{InstallRecord, get_existing_installs}
use vscode_dotnet_runtime.Tracker.Installs.{uninstall_all_records}
use vscode_dotnet_runtime.Worker.{
  Host, Machine, dotnet_path_of, get_default_internal_architecture, track_installed_version,
}
use vscode_dotnet_runtime.Worker.Local.{get_valid_existing_install_path, acquire_local_core}

unfoldable pub get_error_or_string_as_event_error : Error → Error
get_error_or_string_as_event_error type_error = dotnet_acquisition_error
get_error_or_string_as_event_error system_error = dotnet_acquisition_error
get_error_or_string_as_event_error error = error

abbrev pub with_event_error {ℓ κ} : {A : Type ℓ} {S : Type κ} → Result A × S → Result A × S
with_event_error (ok a, s) = (ok a, s)
with_event_error (throw error, s) = (throw (get_error_or_string_as_event_error error), s)

module _ {D C V : Type 0} (host : Host D C V) where
  -- `architecture ?? getDefaultInternalArchitecture(architecture)`
  abbrev internal_architecture : AcquireContext → Architecture
  internal_architecture ctx = named (get_default_internal_architecture host ctx.architecture)

  abbrev legacy_install : AcquireContext → DotnetInstallMode → DotnetInstallType → DotnetInstall
  legacy_install ctx mode type = record {
    install_id =
        get_install_id_custom_architecture host.default_architecture ctx.version null ctx.mode type;
    version = ctx.version;
    architecture = undefined;
    is_global = is_global_type type;
    install_mode = mode;
  }

  abbrev is_null : Architecture → Bool
  is_null null = true
  is_null _ = false

  -- The install that `acquire` names.
  unfoldable pub requested_install :
      AcquireContext → DotnetInstallMode → DotnetInstallType → DotnetInstall
  unfolding get_dotnet_install_info get_default_internal_architecture
      get_install_id_custom_architecture
  requested_install ctx mode type =
      if is_null ctx.architecture
      then legacy_install ctx mode type
      else get_dotnet_install_info host.default_architecture ctx.version mode type
          (internal_architecture ctx)

  -- `acquire` without a resolver.
  unfoldable pub acquire_local :
      (DotnetInstall → D → Result (Unit {0}) × D)
      → AcquireContext
      → DotnetInstallMode
      → Machine D C
      → Result Text × Machine D C
  unfolding requested_install acquire_local_core get_error_or_string_as_event_error
  acquire_local install_dotnet ctx mode m =
      with_event_error
        (acquire_local_core host install_dotnet ctx (requested_install ctx mode local) m)

  -- `architecture ? architecture : ...`
  abbrev status_architecture : Option Text → AcquireContext → Architecture
  status_architecture (some (x ∷ xs)) ctx = named (x ∷ xs)
  status_architecture _ ctx = internal_architecture ctx

  abbrev path_or_undefined : Option Text → Option Text
  path_or_undefined (some (x ∷ xs)) = some (x ∷ xs)
  path_or_undefined _ = none

  unfoldable pub acquire_status :
      AcquireContext
      → DotnetInstallMode
      → Option Text
      → Machine D C
      → Result (Option Text) × Machine D C
  unfolding get_dotnet_install_info get_default_internal_architecture get_existing_installs
      get_valid_existing_install_path
  acquire_status ctx mode architecture m =
      let install =
        get_dotnet_install_info host.default_architecture ctx.version mode local
          (status_architecture architecture ctx) in
      let (installed_versions, s) = get_existing_installs host.default_architecture m.state in
      and_then
        (get_valid_existing_install_path host ctx installed_versions install
          (dotnet_path_of host install) (record m { state = s }))
        (λ existing m. (ok (path_or_undefined existing), m))

  module _ (expected_global_sdk_path : Text → Architecture → D → Result Text) where
    abbrev same_kind : DotnetInstall → DotnetInstall → Bool
    same_kind a b =
        same_mode a.install_mode b.install_mode
        && same_architecture a.architecture b.architecture
        && same_bool a.is_global b.is_global

    unfoldable pub is_similar : DotnetInstall → DotnetInstall → Result Bool
    unfolding get_major_minor same_architecture
    is_similar a b =
        if same_kind a b
        then (get_major_minor a.version >>= λ mine.
            (get_major_minor b.version >>= λ theirs. ok (mine === theirs)))
        else ok false

    abbrev pub path_of_existing : DotnetInstall → D → Result Text
    path_of_existing install d =
        if install.is_global
        then expected_global_sdk_path install.version install.architecture d
        else ok (dotnet_path_of host install)

    -- One turn of the loop, `later` being what the next ones give.
    abbrev pub consider :
        AcquireContext
        → DotnetInstall
        → Machine D C
        → Result (Option Text) × Machine D C
        → Text
        → Result (Option Text) × Machine D C
    consider ctx install m later path =
        if host.fs.exists path m.disk || host.using_no_install_invoker
        then and_then (track_installed_version host ctx install path m)
            (λ _ m'. (ok (some path), m'))
        else later

    abbrev pub try_similar :
        AcquireContext
        → DotnetInstall
        → Machine D C
        → Result (Option Text) × Machine D C
        → Result (Option Text) × Machine D C
    try_similar ctx install m later =
        and_then (path_of_existing install m.disk, m) (λ path _. consider ctx install m later path)

    unfoldable pub similar_from :
        AcquireContext
        → DotnetInstall
        → List InstallRecord
        → Machine D C
        → Result (Option Text) × Machine D C
    unfolding is_similar
    similar_from ctx wanted [] m = (ok none, m)
    similar_from ctx wanted (r ∷ rs) m =
        let later = similar_from ctx wanted rs m in
        and_then (is_similar r.dotnet_install wanted, m)
          (λ similar _.
            if similar
            then and_then (path_of_existing r.dotnet_install m.disk, m)
                (λ path _. consider ctx r.dotnet_install m later path)
            else later)

    unfoldable pub get_similar_existing_install :
        AcquireContext → Machine D C → Result (Option Text) × Machine D C
    unfolding get_install_from_context get_existing_installs similar_from
    get_similar_existing_install ctx m =
        let (installed_versions, s) = get_existing_installs host.default_architecture m.state in
        similar_from ctx (get_install_from_context host.default_architecture ctx) installed_versions
          (record m { state = s })

  -- The loop of `deleteUninstalls`: a folder whose executable is in use is kept.
  unfoldable pub delete_each : Text → List Text → D → D
  delete_each folder [] d = d
  delete_each folder (name ∷ names) d =
      let path = host.fs.join folder name in
      delete_each folder names (
        if host.fs.file_is_open (host.fs.join path host.fs.dotnet_executable) d
        then d
        else host.fs.rm path d)

  abbrev delete_listed : Text → D → Result (List Text) → D
  delete_listed folder d (ok entries) =
      delete_each folder (keep (λ name. host.fs.is_directory (host.fs.join folder name) d) entries)
        d
  delete_listed folder d (throw error) = d

  unfoldable pub delete_uninstalls : Text → D → D
  unfolding delete_each
  delete_uninstalls folder d = delete_listed folder d (host.fs.readdir folder d)

  unfoldable pub uninstall_all : Text → Machine D C → Machine D C
  unfolding uninstall_all_records delete_uninstalls
  uninstall_all storage_path m = record m {
    state = uninstall_all_records host.default_architecture m.state;
    disk = delete_uninstalls storage_path m.disk;
  }
