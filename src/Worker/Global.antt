-- ===== src/Worker/Global.antt =====
-- DotnetCoreAcquisitionWorker.ts: system-wide installs. The installer of the system and the resolver
-- of its version are the parameter `GlobalInstaller`; the process that runs commands with elevation
-- is left out.
use vscode_dotnet_runtime.Prelude.{
  Bool, true, false, not, Option, some, List, [], ◌∷◌, if◌then◌else◌, Result, ok, throw, ◌>>=◌,
  unsupported_global_runtime_uninstall, dotnet_wsl_security_error,
  dotnet_non_zero_installer_exit_code_error, and_then,
}
use vscode_dotnet_runtime.Text.{Text, codes, ◌===◌}
use vscode_dotnet_runtime.Install.{
  DotnetInstallMode, sdk, global, Architecture, named, AcquireContext, DotnetInstall, same_mode,
}
use vscode_dotnet_runtime.Tracker.State.{InstallRecord, ExtensionState, get_existing_installs}
use vscode_dotnet_runtime.Tracker.Installs.{install_has_no_registered_dependents_besides_id}
use vscode_dotnet_runtime.Files.{validate_dotnet_install}
use vscode_dotnet_runtime.Worker.{
  Host, Machine, get_default_internal_architecture, track_installed_version,
  untrack_installed_version, report_uninstall, invalidate_entries, no_relevant_dependents,
}
use vscode_dotnet_runtime.Worker.Existing.{
  requested_install, get_error_or_string_as_event_error, with_event_error,
}
use vscode_dotnet_runtime.Worker.Local.{
  Uninstalled, succeeded, refused, failed, get_valid_existing_install_path,
}

-- `IGlobalInstaller` with the resolver that it is built from. The last argument of the path says
-- whether it should exist on macOS.
pub record GlobalInstaller (D : Type 0) : Type 0 where
  pub fully_specified_version : Result Text
  pub installer_url : Result Text
  pub installer_hash : Result Text
  pub expected_global_sdk_path : Text → Architecture → Bool → D → Result Text
  pub install_sdk : DotnetInstall → D → Result Text × D
  pub uninstall_sdk : DotnetInstall → D → Result Text × D

module _ {D C V : Type 0} (host : Host D C V) (installer : GlobalInstaller D) where
  -- What the installer's constructor asks the resolver.
  abbrev pub constructed : Result (Unit {0})
  constructed =
      if host.is_linux
      then ok tt
      else (installer.installer_url >>= λ _. (installer.installer_hash >>= λ _. ok tt))

  -- `catch`: the install is tracked again.
  abbrev pub recovered :
      AcquireContext
      → DotnetInstall
      → Text
      → Result Uninstalled × Machine D C
      → Result Uninstalled × Machine D C
  recovered ctx install system_path (ok answer, m) = (ok answer, m)
  recovered ctx install system_path (throw error, m) =
      and_then (track_installed_version host ctx install system_path m)
        (λ _ m'. (ok (failed error), m'))

  abbrev pub reported : DotnetInstall → Text → Machine D C → Result Uninstalled × Machine D C
  reported install exit_code m =
      if exit_code === codes "0"
      then (ok succeeded, report_uninstall host install m)
      else (ok refused, m)

  abbrev pub run_uninstall : DotnetInstall → Machine D C → Result Uninstalled × Machine D C
  run_uninstall install m =
      let (exit_code, d) = installer.uninstall_sdk install m.disk in
      and_then (exit_code, record m { disk = d })
        (λ exit_code m. reported install exit_code (invalidate_entries host (codes "dotnet") m))

  -- The uninstall where nothing depends on the install; the path is empty until it is known.
  abbrev pub uninstall_system :
      AcquireContext → DotnetInstall → Machine D C → Result Uninstalled × Machine D C
  uninstall_system ctx install m =
      elim (installer.fully_specified_version >>= λ version.
      (constructed >>= λ _.
      installer.expected_global_sdk_path version install.architecture true m.disk)) [
        | throw error ↦ recovered ctx install [] (throw error, m)
        | ok path ↦ recovered ctx install path (run_uninstall install m)
      ]

  unfoldable pub uninstall_global :
      AcquireContext → DotnetInstall → Bool → Machine D C → Result Uninstalled × Machine D C
  unfolding install_has_no_registered_dependents_besides_id
  uninstall_global ctx install force m =
      let untracked = untrack_installed_version host ctx install force m in
      let (free, s) = no_relevant_dependents host ctx install false untracked.state in
      if not (same_mode install.install_mode sdk)
      then (throw unsupported_global_runtime_uninstall, m)
      else if force
      then uninstall_system ctx install untracked
      else if free
      then uninstall_system ctx install (record untracked { state = s })
      else (ok refused, record untracked { state = s })

  module _ (is_running_under_wsl fake_path is_darwin : Bool) where
    abbrev pub path_of_sdk : AcquireContext → Text → Bool → D → Result Text
    path_of_sdk ctx version mac_path_should_exist d =
        installer.expected_global_sdk_path version
          (named (get_default_internal_architecture host ctx.architecture)) mac_path_should_exist d

    abbrev pub completed :
        AcquireContext → DotnetInstall → Text → Machine D C → Result Text × Machine D C
    completed ctx install path m =
        and_then (validate_dotnet_install host.fs path is_darwin (not is_darwin) m.disk, m)
          (λ _ m. and_then (track_installed_version host ctx install path m) (λ _ m. (ok path, m)))

    abbrev pub after_installer :
        AcquireContext → DotnetInstall → Text → Text → Machine D C → Result Text × Machine D C
    after_installer ctx install version exit_code m =
        if not (exit_code === codes "0")
        then (throw dotnet_non_zero_installer_exit_code_error, m)
        else and_then (path_of_sdk ctx version true m.disk, m)
            (λ path m. completed ctx install path (invalidate_entries host (codes "dotnet") m))

    abbrev pub run_installer :
        AcquireContext → DotnetInstall → Text → Machine D C → Result Text × Machine D C
    run_installer ctx install version m =
        let (exit_code, d) = installer.install_sdk install m.disk in
        and_then (exit_code, record m { disk = d })
          (λ exit_code m. after_installer ctx install version exit_code m)

    -- An existing install is returned where its path is not empty.
    abbrev pub unless_existing :
        AcquireContext
        → DotnetInstall
        → Text
        → Option Text
        → Machine D C
        → Result Text × Machine D C
    unless_existing ctx install version (some (x ∷ xs)) m = (ok (x ∷ xs), m)
    unless_existing ctx install version _ m = run_installer ctx install version m

    abbrev pub look_up :
        AcquireContext
        → DotnetInstall
        → Text
        → List InstallRecord
        → Text
        → Machine D C
        → Result Text × Machine D C
    look_up ctx install version installed_versions path m =
        and_then (get_valid_existing_install_path host ctx installed_versions install path m)
          (unless_existing ctx install version)

    abbrev pub find_or_install :
        AcquireContext
        → DotnetInstall
        → Text
        → List InstallRecord
        → Machine D C
        → Result Text × Machine D C
    find_or_install ctx install version installed_versions m =
        if fake_path
        then (ok (host.fs.join (codes "fake-sdk") host.fs.dotnet_executable), m)
        else and_then (path_of_sdk ctx version false m.disk, m)
            (λ path m.
              and_then (get_valid_existing_install_path host ctx installed_versions install path m)
                (unless_existing ctx install version))

    abbrev pub with_installer :
        AcquireContext
        → DotnetInstall
        → Text
        → List InstallRecord
        → ExtensionState
        → Machine D C
        → Result Text × Machine D C
    with_installer ctx install version installed_versions s m =
        and_then (constructed, record m { state = s })
          (λ _ m. find_or_install ctx install version installed_versions m)

    unfoldable pub acquire_global_core :
        AcquireContext → DotnetInstall → Machine D C → Result Text × Machine D C
    unfolding get_existing_installs get_valid_existing_install_path
    acquire_global_core ctx install m =
        let (installed_versions, s) = get_existing_installs host.default_architecture m.state in
        if is_running_under_wsl
        then (throw dotnet_wsl_security_error, m)
        else and_then (installer.fully_specified_version, m)
            (λ version m.
              and_then (constructed, record m { state = s })
                (λ _ m. find_or_install ctx install version installed_versions m))

    -- `acquire` with a resolver, whose version becomes the requested one. Its error is passed on as
    -- it is, unlike those of the acquisition.
    unfoldable pub acquire_global :
        AcquireContext → DotnetInstallMode → Machine D C → Result Text × Machine D C
    unfolding requested_install acquire_global_core get_error_or_string_as_event_error
    acquire_global ctx mode m =
        and_then (installer.fully_specified_version, m)
          (λ version m.
            let ctx' = record ctx { version = version } in
            with_event_error (acquire_global_core ctx' (requested_install host ctx' mode global) m))
