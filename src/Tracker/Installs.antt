-- ===== src/Tracker/Installs.antt =====
-- Adding and removing installs and their owners. `requester` is
-- `ctx.acquisitionContext?.requestingExtensionId`, `none` where it is undefined.
use vscode_dotnet_runtime.Prelude.{
  Bool, true, false, ◌&&◌, ◌||◌, not, Option, none, some, List, [], ◌∷◌, ◌++◌, map, ◌==◌,
  if◌then◌else◌, length, keep, any_of, Result, ok, ◌>>◌,
}
use vscode_dotnet_runtime.Text.{Text, codes}
use vscode_dotnet_runtime.Install.{DotnetInstall}
use vscode_dotnet_runtime.Tracker.State.{
  InstallOwner, InstallRecord, ExtensionState, to_stored, same_owner, has_owner,
  get_existing_installs, equivalent_to,
}
use vscode_dotnet_runtime.Tracker.Sessions.{
  ProcessEnvironment, mark_install_as_in_use_with_install_lock,
  install_has_no_live_dependents_besides_id,
}

-- `this.extensionState.update('installed', records)`
abbrev pub store : List InstallRecord → ExtensionState → ExtensionState
store records s = record s { installed = map to_stored records }

-- `owner !== requester`: null is not undefined, so an absent requester removes no owner.
unfoldable pub differs_from : Option Text → InstallOwner → Bool
unfolding same_owner
differs_from none o = true
differs_from (some r) o = not (same_owner o (some r))

abbrev pub first_owners : List InstallRecord → List InstallOwner
first_owners [] = []
first_owners (r ∷ rs) = r.installing_extensions

-- `ownerSet.add(owner)`, and `new Set(owners)`.
unfoldable pub add_owner : InstallOwner → List InstallOwner → List InstallOwner
unfolding has_owner
add_owner o os = if has_owner o os then os else os ++ o ∷ []

unfoldable pub add_owners_from : List InstallOwner → List InstallOwner → List InstallOwner
unfolding add_owner
add_owners_from os [] = os
add_owners_from os (x ∷ xs) = add_owners_from (add_owner x os) xs

-- An owner as a condition: null and the empty string are false.
abbrev pub is_named : InstallOwner → Bool
is_named none = false
is_named (some []) = false
is_named (some (x ∷ xs)) = true

-- The first record that is equivalent to the install, changed in place.
unfoldable pub update_first :
    DotnetInstall → (InstallRecord → InstallRecord) → List InstallRecord → List InstallRecord
update_first install f [] = []
update_first install f (r ∷ rs) =
    let rest = update_first install f rs in if equivalent_to install r then f r ∷ rs else r ∷ rest

-- What `addVersionToExtensionState` does to the records.
unfoldable pub with_owner : Option Text → DotnetInstall → List InstallRecord → List InstallRecord
unfolding add_owner update_first
with_owner requester install existing =
    if any_of (equivalent_to install) existing
    then update_first install
        (λ r. record r { installing_extensions = add_owner requester r.installing_extensions })
        existing
    else existing
      ++ record { dotnet_install = install; installing_extensions = requester ∷ [] } ∷ []

-- `owners.length === 1 && test(owners[0])`
abbrev pub only_owner : (InstallOwner → Bool) → List InstallOwner → Bool
only_owner test [] = false
only_owner test (o ∷ os) = length os == 0 && test o

module _ (default_architecture : Text) where
  unfoldable pub report_successful_uninstall : DotnetInstall → ExtensionState → ExtensionState
  unfolding get_existing_installs
  report_successful_uninstall install s =
      let (existing, s') = get_existing_installs default_architecture s in
      store (keep (λ x. not (equivalent_to install x)) existing) s'

  unfoldable pub remove_version_from_extension_state :
      Option Text → DotnetInstall → Bool → ExtensionState → ExtensionState
  unfolding report_successful_uninstall differs_from
  remove_version_from_extension_state requester install force_uninstall s =
      let (existing, s') = get_existing_installs default_architecture s in
      let owners =
        keep (differs_from requester) (first_owners (keep (equivalent_to install) existing)) in
      if force_uninstall
      then report_successful_uninstall install s'
      else store
          (map
            (λ x.
              if equivalent_to install x
              then record { dotnet_install = install; installing_extensions = owners }
              else x)
            existing)
          s'

  -- `validated` is what `validateDotnetInstall` does for the path: it throws if files are missing.
  unfoldable pub add_version_to_extension_state :
      Text
      → Option Text
      → DotnetInstall
      → Text
      → Result (Unit {0})
      → ExtensionState
      → Result ExtensionState
  unfolding mark_install_as_in_use_with_install_lock get_existing_installs with_owner
  add_version_to_extension_state this_session requester install path_to_validate validated s =
      validated
      >> ok (
          let (existing, s') =
            get_existing_installs default_architecture
              (mark_install_as_in_use_with_install_lock path_to_validate this_session s) in
          store (with_owner requester install existing) s')

  unfoldable pub add_owners : DotnetInstall → List InstallOwner → ExtensionState → ExtensionState
  unfolding get_existing_installs update_first add_owners_from
  add_owners install owners_to_add s =
      let (existing, s') = get_existing_installs default_architecture s in
      if any_of (equivalent_to install) existing
      then store
          (update_first install
            (λ r. record r {
              installing_extensions =
                  add_owners_from (add_owners_from [] r.installing_extensions)
                    (keep is_named owners_to_add);
            })
            existing)
          s'
      else s'

  -- The state that `uninstallAllRecords` leaves for the deletion of the files.
  unfoldable pub uninstall_all_records : ExtensionState → ExtensionState
  unfolding get_existing_installs
  uninstall_all_records s =
      let (existing, s') = get_existing_installs default_architecture s in
      store (keep (λ x. x.dotnet_install.is_global) existing) s'

  unfoldable pub install_has_no_registered_dependents_besides_id :
      DotnetInstall → Bool → Text → ExtensionState → Bool × ExtensionState
  unfolding get_existing_installs
  install_has_no_registered_dependents_besides_id install allow_uninstall_user_only ignore s =
      let (existing, s') = get_existing_installs default_architecture s in
      let records = keep (equivalent_to install) existing in
      let owners = first_owners records in
      let zero_records = length records == 0 in
      let only_ignored =
        length records == 1 && only_owner (λ o. same_owner o (some ignore)) owners in
      let no_owners_remain = length owners == 0 in
      let user_only =
        allow_uninstall_user_only && length owners == 1 && has_owner (some (codes "user")) owners in
      (zero_records || only_ignored || no_owners_remain || user_only, s')

  unfoldable pub install_has_no_dependents :
      Text
      → (Text → Bool)
      → ProcessEnvironment
      → (Text → Text)
      → DotnetInstall
      → Text
      → Bool
      → Text
      → ExtensionState
      → Bool × ExtensionState
  unfolding install_has_no_registered_dependents_besides_id
      install_has_no_live_dependents_besides_id
  install_has_no_dependents this_session is_session_dead environment dirname install exe
        allow_uninstall_user_only ignore s =
      let (unregistered, s') =
        install_has_no_registered_dependents_besides_id install allow_uninstall_user_only ignore
          s in
      let (unused, s'') =
        install_has_no_live_dependents_besides_id this_session is_session_dead environment dirname
          default_architecture exe true ignore (some install) s' in
      (unregistered && unused, s'')
