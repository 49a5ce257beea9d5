-- ===== src/Worker/Uninstalled.antt =====
-- DotnetCoreAcquisitionWorker.ts `uninstallLocal`: what is kept, what is removed, and what a failure
-- leaves.
use vscode_dotnet_runtime.Prelude.{
  ◌≡◌, refl, ap, ◌∙◌, Bool, true, false, none, arith, keep, Result, ok, throw, Error, if◌then◌else◌,
  inl, inr, Bool-cases, List, All,
}
use vscode_dotnet_runtime.Text.{Text, ◌===◌, ===_self}
use vscode_dotnet_runtime.Install.{AcquireContext, DotnetInstall}
use vscode_dotnet_runtime.Tracker.State.{ExtensionState}
use vscode_dotnet_runtime.Tracker.Installs.{
  differs_from, install_has_no_registered_dependents_besides_id,
}
use vscode_dotnet_runtime.Tracker.Records.{change_some, owners_in, owners_in-drop}
use vscode_dotnet_runtime.Tracker.Owners.{
  owners_of, IsTracked, remove_version_owners, registered, registered-again, registered-report,
}
use vscode_dotnet_runtime.Tracker.Ownership.{remove-IsTracked}
use vscode_dotnet_runtime.Tracker.Dependents.{no_dependents, no_registered_dependents_iff}
use vscode_dotnet_runtime.Files.{wipe_entries, wipe_directory}
use vscode_dotnet_runtime.Worker.Wiped.{wiped_entries}
use vscode_dotnet_runtime.Worker.{
  Host, Machine, dotnet_path_of, text_or_empty, untrack_installed_version,
}
use vscode_dotnet_runtime.Worker.Local.{
  succeeded, failed, after_wipe, checked_dependents, uninstall_local,
}
use vscode_dotnet_runtime.Worker.Tracked.{IsHeld, tracked_last}

module _ {D C V : Type 0} (host : Host D C V) where
  pub checked-owners :
      (install : DotnetInstall) (ignore : Text) (s : ExtensionState) (j : Text)
      → owners_of host.default_architecture j
          (install_has_no_registered_dependents_besides_id host.default_architecture install false
            ignore s).1
        ≡ owners_of host.default_architecture j s
  unfolding install_has_no_registered_dependents_besides_id
  checked-owners install ignore s j =
      ap (owners_in j) (registered-again host.default_architecture s)

  -- Where no id is tracked twice, uninstalling a local install without force and without the check of
  -- its live dependents, by a requester beside whom it has registered dependents, answers that it
  -- succeeded and removes no file and no cached result; the install keeps the owners other than the
  -- requester, and no other install changes its owners.
  pub uninstall_keeps_shared :
      (ctx : AcquireContext) (install : DotnetInstall) (m : Machine D C)
      → IsTracked host.default_architecture m.state
      → install.is_global ≡ false
      → no_dependents false (text_or_empty ctx.requesting_extension_id) (
          change_some
            (keep (differs_from ctx.requesting_extension_id))
            (owners_of host.default_architecture install.install_id m.state))
        ≡ false
      → (m' : Machine D C) × (uninstall_local host ctx install false false m ≡ (ok succeeded, m'))
        × (m'.disk ≡ m.disk)
        × (m'.cache ≡ m.cache)
        × ((j : Text)
            → owners_of host.default_architecture j m'.state ≡ (
                if install.install_id === j
                then change_some
                    (keep (differs_from ctx.requesting_extension_id))
                    (owners_of host.default_architecture j m.state)
                else owners_of host.default_architecture j m.state))
  unfolding uninstall_local
  uninstall_keeps_shared ctx install m tracked local shared =
      let arch = host.default_architecture in
      let requester = ctx.requesting_extension_id in
      let u = untrack_installed_version host ctx install false m in
      let checked =
        install_has_no_registered_dependents_besides_id arch install false (text_or_empty requester)
          u.state in
      let busy : checked.0 ≡ false =
        no_registered_dependents_iff arch install false (text_or_empty requester) u.state
          (remove-IsTracked arch requester install false m.state tracked)
        ∙ ap (no_dependents false (text_or_empty requester)) (
            remove_version_owners arch requester install false m.state install.install_id
            ∙ rw (===_self install.install_id))
        ∙ shared in
      (
        record u { state = checked.1 },
        simp (local, busy),
        refl,
        refl,
        λ j.
            checked-owners install (text_or_empty requester) u.state j
            ∙ remove_version_owners arch requester install false m.state j,
      )

  -- Uninstalling a local install by force, whoever owns it, where its folder exists and can be read
  -- and its `dotnet` is not open, and where a path that is removed no longer exists and a removal
  -- brings no other path back: none of the entries that the folder had exists any more, the install
  -- is no longer tracked, no other install changes its owners, and the answer is that it succeeded.
  pub forced_uninstall :
      (ctx : AcquireContext) (install : DotnetInstall) (use_live : Bool) (m : Machine D C)
      (entries : List Text)
      → install.is_global ≡ false
      → host.fs.exists (host.install_dir install.install_id) m.disk ≡ true
      → host.fs.file_is_open
          (host.fs.join (host.install_dir install.install_id) host.fs.dotnet_executable)
          m.disk
        ≡ false
      → host.fs.readdir (host.install_dir install.install_id) m.disk ≡ ok entries
      → ((p : Text) (d : D) → host.fs.exists p (host.fs.rm p d) ≡ false)
      → ((p q : Text) (d : D)
          → host.fs.exists q d ≡ false
          → host.fs.exists q (host.fs.rm p d) ≡ false)
      → (m' : Machine D C) × (uninstall_local host ctx install true use_live m ≡ (ok succeeded, m'))
        × All
            (λ e.
              host.fs.exists (host.fs.join (host.install_dir install.install_id) e) m'.disk ≡ false)
            entries
        × ((j : Text)
            → owners_of host.default_architecture j m'.state ≡ (
                if install.install_id === j
                then none
                else owners_of host.default_architecture j m.state))
  unfolding uninstall_local wipe_directory
  forced_uninstall ctx install use_live m entries local there closed listed removes restores_none =
      let u = untrack_installed_version host ctx install true m in
      let folder = host.install_dir install.install_id in
      let d = wipe_entries host.fs folder none entries m.disk in
      (
        (after_wipe host ctx install (ok tt) (record u { disk = d })).1,
        simp (local, there, closed, listed),
        wiped_entries host.fs folder removes restores_none entries m.disk,
        λ j.
            ap (owners_in j) (registered-report host.default_architecture install u.state)
            ∙ owners_in-drop install j (registered host.default_architecture u.state)
            ∙ ground (
              arith,
              remove_version_owners host.default_architecture ctx.requesting_extension_id install
                  true m.state j,
            ),
      )

  wipe_failed :
      (ctx : AcquireContext) (install : DotnetInstall) (wiped : Result (Unit {0}))
      (m m' : Machine D C) (error : Error)
      → after_wipe host ctx install wiped m ≡ (ok (failed error), m')
      → IsHeld host ctx install (dotnet_path_of host install) m'
  wipe_failed ctx install (ok _) m m' error h = cc
  wipe_failed ctx install (throw e) m m' error h =
      (tracked_last host ctx install (dotnet_path_of host install) m m' (failed e) (failed error)
        h).1

  -- Where an uninstall of a local install answers with the message of an error, the install is
  -- tracked again: its files pass the validation, the requester is among its owners, and it has a
  -- live dependent.
  pub failed_uninstall-IsHeld :
      (ctx : AcquireContext) (install : DotnetInstall) (force use_live : Bool) (m m' : Machine D C)
      (error : Error)
      → uninstall_local host ctx install force use_live m ≡ (ok (failed error), m')
      → IsHeld host ctx install (dotnet_path_of host install) m'
  unfolding uninstall_local
  failed_uninstall-IsHeld ctx install force use_live m m' error h =
      let u = untrack_installed_version host ctx install force m in
      let (free, t) = checked_dependents host ctx install force use_live u in
      let (wiped, d) =
        wipe_directory host.fs (host.install_dir install.install_id) none true t.disk in
      elim (Bool-cases install.is_global) [
        | inl global ↦ cc (simp global at h)
        | inr local ↦ elim (Bool-cases free) [
          | inl unused ↦
              wipe_failed ctx install wiped (record t { disk = d }) m' error
                (simp (local, unused) at h)
          | inr used ↦ cc (simp (local, used) at h)
        ]
      ]
