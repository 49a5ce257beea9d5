-- ===== src/Tests/Sessions.antt =====
-- Runs of the theorems on the sessions of InstallTrackerSingleton.ts and on their storage.
use vscode_dotnet_runtime.Prelude.{
  ◌≡◌, refl, ◌⊎◌, ◌↔◌, true, false, not, ◌&&◌, Bool, none, some, [], ◌∷◌, if◌then◌else◌,
}
use vscode_dotnet_runtime.Text.{Text, codes, ◌===◌}
use vscode_dotnet_runtime.Collections.{MapOfSets, get}
use vscode_dotnet_runtime.Tracker.State.{ExtensionState, get_existing_installs}
use vscode_dotnet_runtime.Tracker.Sessions.{
  ProcessEnvironment, read_sessions, prune_stale_sessions, install_has_no_live_dependents,
}
use vscode_dotnet_runtime.Tracker.Installs.{install_has_no_dependents}
use vscode_dotnet_runtime.Tracker.Owners.{owners_of}
use vscode_dotnet_runtime.Tracker.Dependents.{no_dependents}
use vscode_dotnet_runtime.Tracker.Live.{prune_sessions}
use vscode_dotnet_runtime.Tracker.Uninstall.{
  unused, IsUnnamed, MayIgnore, IsUnused, no_live_dependents_iff, no_dependents_sound,
}
use vscode_dotnet_runtime.Tests.Tracking.{here, install, extension, state, state-IsTracked}

abbrev this : Text
this = codes "s2"

-- Only the session s1 is dead.
abbrev is_dead : Text → Bool
is_dead id = id === codes "s1"

abbrev exe : Text
exe = codes "/d/dotnet"

abbrev folder : Text → Text
folder path = codes "/d"

abbrev environment : ProcessEnvironment
environment = record { path = some (codes "/bin"); dotnet_root = none }

abbrev check : ExtensionState → Bool × ExtensionState
check s = install_has_no_live_dependents this is_dead environment folder here exe s

abbrev sets : MapOfSets
sets = (codes "s1", exe ∷ codes "/e" ∷ []) ∷ (this, []) ∷ []

prune_sessions_example :
    get (codes "s1") (read_sessions (prune_stale_sessions this is_dead state)) ≡ (
      if not (codes "s1" === this) && is_dead (codes "s1")
      then none
      else get (codes "s1") (read_sessions state))
prune_sessions_example = prune_sessions this is_dead (codes "s1") state

no_live_dependents_iff_example : ((check state).0 ≡ true) ↔ (
    (unused this is_dead exe (read_sessions state) ≡ true)
    × IsUnnamed this is_dead environment folder here exe)
no_live_dependents_iff_example =
    no_live_dependents_iff this is_dead environment folder here exe state

no_dependents_sound_example :
    (no_dependents false extension (owners_of here install.install_id state) ≡ true)
    × (MayIgnore this is_dead environment folder here extension install state
        ⊎ IsUnused this is_dead environment folder here exe state)
unfolding ◌===◌ install_has_no_dependents vscode_dotnet_runtime.Install.is_equivalent_installation
    vscode_dotnet_runtime.Install.get_assumed_install_info
    vscode_dotnet_runtime.Tracker.State.same_owner
no_dependents_sound_example =
    no_dependents_sound this is_dead environment folder here exe install false extension state
      state-IsTracked refl
