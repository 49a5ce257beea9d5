-- ===== src/Tracker/Sessions.antt =====
-- The sessions and the executables that they use. Whether another session is alive is asked by
-- acquiring its mutex; the answers are the parameter `is_session_dead`. The process environment and
-- `path.dirname` are parameters too.
use vscode_dotnet_runtime.Prelude.{
  ℕ, suc, Bool, true, false, ◌&&◌, ◌||◌, not, Option, none, some, List, [], ◌∷◌, map, ltb, ◌==◌,
  if◌then◌else◌, length, find,
}
use vscode_dotnet_runtime.Text.{Text, ◌===◌, includes}
use vscode_dotnet_runtime.Collections.{
  MapOfSets, has, add, get, put, delete, serialize_map_of_sets, deserialize_map_of_sets,
}
use vscode_dotnet_runtime.Install.{DotnetInstall}
use vscode_dotnet_runtime.Tracker.State.{
  InstallRecord, ExtensionState, same_owner, get_existing_installs, equivalent_to,
}

pub record ProcessEnvironment : Type 0 where
  pub path : Option Text
  pub dotnet_root : Option Text

-- `value?.includes(t) ?? false`
abbrev pub mentions : Option Text → Text → Bool
mentions none t = false
mentions (some value) t = includes value t

module _ (environment : ProcessEnvironment) (dirname : Text → Text) where
  unfoldable pub process_environment_depends_on_install : Text → Bool
  process_environment_depends_on_install exe =
      mentions environment.path (dirname exe) || mentions environment.dotnet_root (dirname exe)

-- The owners of the first equivalent record, if it exists.
abbrev pub can_ignore_live_dependents : Text → Option InstallRecord → Bool
can_ignore_live_dependents ignore none = true
can_ignore_live_dependents ignore (some r) = elim r.installing_extensions [
  | [] ↦ true
  | o ∷ os ↦ length os == 0 && same_owner o (some ignore)
]

unfoldable pub read_sessions : ExtensionState → MapOfSets
read_sessions s = deserialize_map_of_sets (some s.sessions)

abbrev pub paths_or_none : Option (List Text) → List Text
paths_or_none none = []
paths_or_none (some paths) = paths

unfoldable pub mark_install_as_in_use_with_install_lock :
    Text → Text → ExtensionState → ExtensionState
unfolding read_sessions
mark_install_as_in_use_with_install_lock install_exe_path session_id s =
    let existing = read_sessions s in
    let active = add install_exe_path (paths_or_none (get session_id existing)) in
    record s { sessions = serialize_map_of_sets (put session_id active existing) }

module _ (this_session : Text) where
  unfoldable pub mark_install_as_in_use : Text → ExtensionState → ExtensionState
  unfolding mark_install_as_in_use_with_install_lock
  mark_install_as_in_use install_exe_path s =
      mark_install_as_in_use_with_install_lock install_exe_path this_session s

  -- `Map.delete` says whether the key was there; only then is the state written.
  unfoldable pub remove_current_session : ExtensionState → ExtensionState
  unfolding read_sessions
  remove_current_session s = elim (get this_session (read_sessions s)) [
    | none ↦ s
    | some _ ↦ record s { sessions = serialize_map_of_sets (delete this_session (read_sessions s)) }
  ]

  module _ (is_session_dead : Text → Bool) where
    -- The loop of `pruneStaleSessions` over the session ids.
    unfoldable pub prune_from : List Text → MapOfSets → ℕ → MapOfSets × ℕ
    prune_from [] sessions pruned = (sessions, pruned)
    prune_from (id ∷ ids) sessions pruned =
        let stale = not (id === this_session) && is_session_dead id in
        prune_from ids (if stale then delete id sessions else sessions)
          (if stale then suc pruned else pruned)

    unfoldable pub prune_stale_sessions : ExtensionState → ExtensionState
    unfolding prune_from read_sessions
    prune_stale_sessions s =
        let existing = read_sessions s in
        let (remaining, pruned) = prune_from (map (λ e. e.0) existing) existing 0 in
        if ltb 0 pruned then record s { sessions = serialize_map_of_sets remaining } else s

    -- The loop over the sessions: false as soon as a live one uses the executable.
    unfoldable pub live_from : Text → MapOfSets → MapOfSets → ExtensionState → Bool × ExtensionState
    live_from exe [] sessions s = (true, s)
    live_from exe ((id, exe_paths) ∷ rest) sessions s =
        let sessions' = delete id sessions in
        let after_dead =
          live_from exe rest sessions' (record s { sessions = serialize_map_of_sets sessions' }) in
        let after_other = live_from exe rest sessions s in
        if id === this_session && has exe exe_paths
        then (false, s)
        else if is_session_dead id
        then after_dead
        else if has exe exe_paths
        then (false, s)
        else after_other

    module _ (environment : ProcessEnvironment) (dirname : Text → Text) where
      -- What follows when no registered owner settles the question.
      unfoldable pub check_sessions : Text → MapOfSets → ExtensionState → Bool × ExtensionState
      unfolding live_from process_environment_depends_on_install
      check_sessions exe sessions s =
          let (free, s') = live_from exe sessions sessions s in
          (free && not (process_environment_depends_on_install environment dirname exe), s')

      module _ (default_architecture : Text) where
        -- `has_dir_provider` says that the directory provider is not null.
        unfoldable pub install_has_no_live_dependents_besides_id :
            Text → Bool → Text → Option DotnetInstall → ExtensionState → Bool × ExtensionState
        unfolding read_sessions check_sessions get_existing_installs
        install_has_no_live_dependents_besides_id exe has_dir_provider ignore none s =
            check_sessions exe (read_sessions s) s
        install_has_no_live_dependents_besides_id exe has_dir_provider ignore (some install) s =
            let (existing, s') = get_existing_installs default_architecture s in
            if not (ignore === []) && has_dir_provider
            then if can_ignore_live_dependents ignore (find (equivalent_to install) existing)
              then (true, s')
              else check_sessions exe (read_sessions s) s'
            else check_sessions exe (read_sessions s) s

        unfoldable pub install_has_no_live_dependents :
            Text → ExtensionState → Bool × ExtensionState
        unfolding install_has_no_live_dependents_besides_id
        install_has_no_live_dependents exe s =
            install_has_no_live_dependents_besides_id exe false [] none s
