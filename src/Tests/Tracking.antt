-- ===== src/Tests/Tracking.antt =====
-- Runs of the theorems on the owners of InstallTrackerSingleton.ts.
use vscode_dotnet_runtime.Prelude.{
  ◌≡◌, refl, true, false, Option, none, some, [], ◌∷◌, if◌then◌else◌, keep, Result, ok, throw,
  type_error,
}
use vscode_dotnet_runtime.Text.{Text, codes, ◌===◌}
use vscode_dotnet_runtime.Install.{DotnetInstall, runtime, named, get_assumed_install_info}
use vscode_dotnet_runtime.Collections.{has}
use vscode_dotnet_runtime.Tracker.State.{
  ExtensionState, legacy, current, has_owner, get_existing_installs,
}
use vscode_dotnet_runtime.Tracker.Installs.{
  add_owner, differs_from, add_owners, remove_version_from_extension_state,
  add_version_to_extension_state, report_successful_uninstall, uninstall_all_records,
  install_has_no_registered_dependents_besides_id,
}
use vscode_dotnet_runtime.Tracker.Records.{owners_in, change_some, or_empty}
use vscode_dotnet_runtime.Tracker.Owners.{
  owners_of, IsTracked, add_version_owners, remove_version_owners,
}
use vscode_dotnet_runtime.Tracker.Ownership.{operations-IsTracked, track_untrack}
use vscode_dotnet_runtime.Tracker.Dependents.{no_dependents, no_registered_dependents_iff}

abbrev pub here : Text
here = codes "x64"

abbrev pub install : DotnetInstall
install = record {
  install_id = codes "8.0.1~x64";
  version = codes "8.0.1";
  architecture = named here;
  is_global = false;
  install_mode = runtime;
}

abbrev pub extension : Text
extension = codes "ms.csharp"

-- One install of an extension, and a legacy id.
abbrev pub state : ExtensionState
state = record {
  installed = current install (some (some extension ∷ [])) ∷ legacy (codes "7.0.2") ∷ [];
  sessions = (codes "s1", some (some (codes "/d/dotnet") ∷ [])) ∷ [];
}

abbrev result_or_state : Result ExtensionState → ExtensionState
result_or_state (ok s) = s
result_or_state (throw _) = state

abbrev pub tracked : Option Text → ExtensionState
tracked requester = result_or_state (
    add_version_to_extension_state here (codes "s2") requester install (codes "/d/dotnet") (ok tt)
      state)

pub state-IsTracked : IsTracked here state
unfolding get_existing_installs ◌===◌ has get_assumed_install_info
state-IsTracked = (refl, (refl, tt))

add_version_owners_example :
    (add_version_to_extension_state here
        (codes "s2")
        none
        install
        (codes "/d/dotnet")
        (throw type_error)
        state
      ≡ throw type_error)
    × ((s' : ExtensionState) × (add_version_to_extension_state here
            (codes "s2")
            none
            install
            (codes "/d/dotnet")
            (ok tt)
            state
          ≡ ok s')
        × ((j : Text)
            → owners_of here j s' ≡ (
                if install.install_id === j
                then some (add_owner none (or_empty (owners_of here j state)))
                else owners_of here j state)))
add_version_owners_example =
    add_version_owners here (codes "s2") none install (codes "/d/dotnet") state type_error

remove_version_owners_example :
    owners_of here
      (codes "8.0.1~x64")
      (remove_version_from_extension_state here (some extension) install false state)
    ≡ (if install.install_id === codes "8.0.1~x64"
        then change_some
            (keep (differs_from (some extension)))
            (owners_of here (codes "8.0.1~x64") state)
        else owners_of here (codes "8.0.1~x64") state)
remove_version_owners_example =
    remove_version_owners here (some extension) install false state (codes "8.0.1~x64")

operations-IsTracked_example :
    IsTracked here (tracked none)
    × IsTracked here (remove_version_from_extension_state here (some extension) install true state)
    × IsTracked here (report_successful_uninstall here install state)
    × IsTracked here (add_owners here install (none ∷ []) state)
    × IsTracked here (uninstall_all_records here state)
unfolding add_version_to_extension_state ◌===◌ remove_version_from_extension_state
operations-IsTracked_example =
    operations-IsTracked here (codes "s2") (codes "/d/dotnet") none install true (none ∷ []) state
      (tracked none) state-IsTracked refl

track_untrack_example :
    owners_of here install.install_id (
      remove_version_from_extension_state here
        (some (codes "b"))
        install
        false
        (tracked (some (codes "b"))))
    ≡ some (or_empty (owners_of here install.install_id state))
unfolding add_version_to_extension_state ◌===◌ has_owner owners_in
track_untrack_example =
    track_untrack here (codes "s2") (codes "/d/dotnet") (codes "b") install state
      (tracked (some (codes "b"))) refl refl

no_registered_dependents_iff_example :
    (install_has_no_registered_dependents_besides_id here install false extension state).0
    ≡ no_dependents false extension (owners_of here install.install_id state)
no_registered_dependents_iff_example =
    no_registered_dependents_iff here install false extension state state-IsTracked
