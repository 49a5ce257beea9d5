-- ===== src/Worker/Local.antt =====
-- DotnetCoreAcquisitionWorker.ts: local installs.
use vscode_dotnet_runtime.Prelude.{
  Bool, true, false, ◌&&◌, ◌||◌, not, Option, none, some, List, [], ◌∷◌, if◌then◌else◌, any_of,
  keep, Result, ok, throw, Error, and_then,
}
use vscode_dotnet_runtime.Text.{Text, includes, includes_code}
use vscode_dotnet_runtime.Install.{DotnetInstallType, local, named, AcquireContext, DotnetInstall}
use vscode_dotnet_runtime.Tracker.State.{InstallRecord, get_existing_installs, equivalent_to}
use vscode_dotnet_runtime.Files.{wipe_directory}
use vscode_dotnet_runtime.Worker.{
  Host, Machine, dotnet_path_of, get_default_internal_architecture, validated,
  track_installed_version, untrack_installed_version, report_uninstall, invalidate_entries,
  no_relevant_dependents, still_valid, sdk_is_found, is_global_request,
}

-- What an uninstall returns: '0', the code '117778', or the message of an error.
pub data Uninstalled : Type 0 where
  succeeded refused : Uninstalled
  failed : Error → Uninstalled

module _ {D C V : Type 0} (host : Host D C V) where
  -- Untracks an install that turns out to be missing.
  abbrev pub forget : AcquireContext → DotnetInstall → Machine D C → Machine D C
  forget ctx install m =
      report_uninstall host install (untrack_installed_version host ctx install true m)

  abbrev pub found :
      AcquireContext → DotnetInstall → Text → Machine D C → Result (Option Text) × Machine D C
  found ctx install path m =
      and_then (track_installed_version host ctx install path m) (λ _ m'. (ok (some path), m'))

  abbrev pub when_sdk_found :
      AcquireContext
      → DotnetInstall
      → Text
      → Machine D C
      → Result Bool
      → Result (Option Text) × Machine D C
  when_sdk_found ctx install path m (ok true) = found ctx install path m
  when_sdk_found ctx install path m (ok false) = (ok none, forget ctx install m)
  when_sdk_found ctx install path m (throw error) = (throw error, m)

  abbrev pub when_checked :
      AcquireContext
      → DotnetInstall
      → Text
      → Machine D C
      → Result Bool
      → Result (Option Text) × Machine D C
  when_checked ctx install path m (ok true) =
      if is_global_request ctx.install_type
      then when_sdk_found ctx install path m (sdk_is_found host ctx m.disk)
      else found ctx install path m
  when_checked ctx install path m (ok false) = (ok none, m)
  when_checked ctx install path m (throw error) = (ok none, forget ctx install m)

  unfoldable pub get_valid_existing_install_path :
      AcquireContext
      → List InstallRecord
      → DotnetInstall
      → Text
      → Machine D C
      → Result (Option Text) × Machine D C
  unfolding sdk_is_found
  get_valid_existing_install_path ctx installed_versions install path m =
      if any_of (equivalent_to install) installed_versions
        && (host.fs.exists path m.disk || host.using_no_install_invoker)
      then when_checked ctx install path m (still_valid host ctx path m.disk)
      else (ok none, m)

  -- What follows the removal of the files, and what follows its failure.
  abbrev pub after_wipe :
      AcquireContext
      → DotnetInstall
      → Result (Unit {0})
      → Machine D C
      → Result Uninstalled × Machine D C
  after_wipe ctx install (ok _) m = (
    ok succeeded,
    report_uninstall host install (invalidate_entries host (host.install_dir install.install_id) m),
  )
  after_wipe ctx install (throw error) m =
      and_then (track_installed_version host ctx install (dotnet_path_of host install) m)
        (λ _ m'. (ok (failed error), m'))

  abbrev pub remove_files :
      AcquireContext → DotnetInstall → Machine D C → Result Uninstalled × Machine D C
  remove_files ctx install m =
      let (wiped, d) =
        wipe_directory host.fs (host.install_dir install.install_id) none true m.disk in
      after_wipe ctx install wiped (record m { disk = d })

  abbrev pub checked_dependents :
      AcquireContext → DotnetInstall → Bool → Bool → Machine D C → Bool × Machine D C
  checked_dependents ctx install force use_live_dependent_check m =
      let (free, s) = no_relevant_dependents host ctx install use_live_dependent_check m.state in
      if force then (true, m) else (free, record m { state = s })

  -- The key 'installPathsGraveyard' that is cleared first is read by nothing and left out.
  unfoldable pub uninstall_local :
      AcquireContext → DotnetInstall → Bool → Bool → Machine D C → Result Uninstalled × Machine D C
  unfolding wipe_directory
  uninstall_local ctx install force use_live_dependent_check m =
      let (free, m') =
        checked_dependents ctx install force use_live_dependent_check
          (untrack_installed_version host ctx install force m) in
      let removed = remove_files ctx install m' in
      if install.is_global then (ok succeeded, m) else if free then removed else (ok succeeded, m')

  unfoldable pub existing_legacy_installs : List InstallRecord → List InstallRecord
  existing_legacy_installs all_installs =
      keep (λ install. not (includes_code install.dotnet_install.install_id b'~')) all_installs

  -- The loop over the legacy installs.
  unfoldable pub remove_each_matching :
      AcquireContext → Text → List InstallRecord → Machine D C → Result (Unit {0}) × Machine D C
  remove_each_matching ctx version [] m = (ok tt, m)
  remove_each_matching ctx version (r ∷ rs) m =
      and_then
        (if includes r.dotnet_install.install_id version
          then uninstall_local ctx r.dotnet_install false false m
          else (ok succeeded, m))
        (λ _ m'. remove_each_matching ctx version rs m')

  unfoldable pub remove_matching_legacy_install :
      AcquireContext → List InstallRecord → Text → Machine D C → Result (Unit {0}) × Machine D C
  unfolding existing_legacy_installs remove_each_matching
  remove_matching_legacy_install ctx installed_versions version m =
      remove_each_matching ctx version (existing_legacy_installs installed_versions) m

  -- `installType ??= 'local'` and `architecture ??= ...`.
  abbrev pub type_or_local : Option DotnetInstallType → Option DotnetInstallType
  type_or_local none = some local
  type_or_local (some type) = some type

  abbrev pub with_defaults : AcquireContext → AcquireContext
  with_defaults ctx = record ctx {
    install_type = type_or_local ctx.install_type;
    architecture = named (get_default_internal_architecture host ctx.architecture);
  }

  -- What follows the validation of a new install.
  abbrev pub track_new : AcquireContext → DotnetInstall → Machine D C → Result Text × Machine D C
  track_new ctx install m =
      and_then (track_installed_version host ctx install (dotnet_path_of host install) m)
        (λ _ m'. (ok (dotnet_path_of host install), m'))

  abbrev pub replace_legacy :
      AcquireContext → DotnetInstall → List InstallRecord → Machine D C → Result Text × Machine D C
  replace_legacy ctx install installed_versions m =
      and_then (remove_matching_legacy_install ctx installed_versions ctx.version m)
        (λ _ m'. track_new ctx install m')

  abbrev pub validate_and_track :
      AcquireContext → DotnetInstall → List InstallRecord → Machine D C → Result Text × Machine D C
  validate_and_track ctx install installed_versions m =
      and_then (validated host (dotnet_path_of host install) m.disk, m)
        (λ _ m'. replace_legacy ctx install installed_versions m')

  module _ (install_dotnet : DotnetInstall → D → Result (Unit {0}) × D) where
    abbrev pub install_new :
        AcquireContext
        → DotnetInstall
        → List InstallRecord
        → Machine D C
        → Result Text × Machine D C
    install_new ctx install installed_versions m =
        let (done, d) = install_dotnet install m.disk in
        and_then (done, record m { disk = d })
          (λ _ m.
            validate_and_track ctx install installed_versions
              (invalidate_entries host (host.install_dir install.install_id) m))

    abbrev pub unless_found :
        AcquireContext
        → DotnetInstall
        → List InstallRecord
        → Option Text
        → Machine D C
        → Result Text × Machine D C
    unless_found ctx install installed_versions (some path) m = (ok path, m)
    unless_found ctx install installed_versions none m =
        install_new ctx install installed_versions m

    unfoldable pub acquire_local_core :
        AcquireContext → DotnetInstall → Machine D C → Result Text × Machine D C
    unfolding get_valid_existing_install_path remove_matching_legacy_install get_existing_installs
    acquire_local_core ctx install m =
        let ctx' = with_defaults ctx in
        let (installed_versions, s) = get_existing_installs host.default_architecture m.state in
        and_then
          (get_valid_existing_install_path ctx' installed_versions install
            (dotnet_path_of host install) (record m { state = s }))
          (unless_found ctx' install installed_versions)
