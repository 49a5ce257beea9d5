-- ===== src/Tracker/Uninstall.antt =====
-- When InstallTrackerSingleton.ts says that an install may be removed.
use mathlib.Core.Bool.{and-eq-true_iff}
use vscode_dotnet_runtime.Prelude.{
  inl, inr, ◌≡◌, ◌≢◌, refl, ap, sym, ◌∙◌, Bool, true, false, ◌&&◌, ◌||◌, not, Option, none, some,
  List, [], ◌∷◌, ◌++◌, ◌↔◌, subst, arith, every, ok, find, ◌⊎◌,
}
use vscode_dotnet_runtime.Text.{Text, ◌===◌, ===_self, ===_iff}
use vscode_dotnet_runtime.Text.Search.{includes_prefix, includes-append, includes-parts}
use vscode_dotnet_runtime.Collections.{MapOfSets, has, add, get, delete}
use vscode_dotnet_runtime.Collections.Sets.{has-add}
use vscode_dotnet_runtime.Collections.Maps.{get-delete, IsMapOfSets}
use vscode_dotnet_runtime.Install.{DotnetInstall}
use vscode_dotnet_runtime.Tracker.State.{ExtensionState, get_existing_installs, equivalent_to}
use vscode_dotnet_runtime.Tracker.Sessions.{
  ProcessEnvironment, read_sessions, paths_or_none, mark_install_as_in_use_with_install_lock,
  mentions, live_from, process_environment_depends_on_install, check_sessions,
  can_ignore_live_dependents, install_has_no_live_dependents_besides_id,
  install_has_no_live_dependents,
}
use vscode_dotnet_runtime.Tracker.Installs.{
  store, with_owner, add_version_to_extension_state, install_has_no_dependents,
}
use vscode_dotnet_runtime.Tracker.Owners.{registered, registered-again, owners_of, IsTracked}
use vscode_dotnet_runtime.Tracker.Dependents.{no_dependents, no_registered_dependents_iff}
use vscode_dotnet_runtime.Tracker.Live.{
  read-IsMapOfSets, with_sessions, read-with_sessions, delete-IsMapOfSets, mark_sessions,
}

module _ (this_session : Text) (is_session_dead : Text → Bool) where
  -- A session uses the executable: it is this session or alive, and has marked it.
  abbrev pub uses : Text → Text × List Text → Bool
  uses exe (id, paths) = has exe paths && (id === this_session || not (is_session_dead id))

  abbrev pub unused : Text → MapOfSets → Bool
  unused exe m = every (λ e. not (uses exe e)) m

  live_from-unused :
      (exe : Text) (rest m : MapOfSets) (s : ExtensionState)
      → (live_from this_session is_session_dead exe rest m s).0 ≡ unused exe rest
  unfolding live_from
  live_from-unused exe [] m s = refl
  live_from-unused exe ((id, paths) ∷ rest) m s = ground (
    arith,
    live_from-unused exe rest (delete id m) (with_sessions (delete id m) s),
    live_from-unused exe rest m s,
  )

  live_from-sessions :
      (j exe : Text) (rest m : MapOfSets) (s : ExtensionState)
      → is_session_dead j ≡ false
      → IsMapOfSets m
      → read_sessions s ≡ m
      → get j (read_sessions (live_from this_session is_session_dead exe rest m s).1) ≡ get j m
  unfolding live_from
  live_from-sessions j exe [] m s alive h e = ap (get j) e
  live_from-sessions j exe ((id, paths) ∷ rest) m s alive h e = ground (
    arith,
    live_from-sessions j exe rest (delete id m) (with_sessions (delete id m) s) alive
        (delete-IsMapOfSets id m h)
        (read-with_sessions (delete id m) s (delete-IsMapOfSets id m h)),
    live_from-sessions j exe rest m s alive h e,
    get-delete id j m,
    ===_iff id j,
  )

  unused_of_member :
      (exe id : Text) (paths : List Text) (m : MapOfSets)
      → get id m ≡ some paths
      → uses exe (id, paths) ≡ true
      → unused exe m ≡ false
  unfolding get
  unused_of_member exe id paths [] g u = cc
  unused_of_member exe id paths (e ∷ m) g u =
      ground (arith, unused_of_member exe id paths m, ===_iff e.0 id)

  module _ (environment : ProcessEnvironment) (dirname : Text → Text)
      (default_architecture : Text) where
    abbrev check : Text → ExtensionState → Bool × ExtensionState
    check =
        install_has_no_live_dependents this_session is_session_dead environment dirname
          default_architecture

    -- The answer of the check, by the two tests of the source.
    pub no_live_dependents_eq :
        (exe : Text) (s : ExtensionState)
        → (check exe s).0 ≡ (
            unused exe (read_sessions s)
            && not (process_environment_depends_on_install environment dirname exe))
    unfolding install_has_no_live_dependents check_sessions
    no_live_dependents_eq exe s =
        ground (arith, live_from-unused exe (read_sessions s) (read_sessions s) s)

    -- A text, if it is there, that has `t` in it at some place.
    abbrev pub Names : Option Text → Text → Type 0
    Names value t = (before : Text) × ((after : Text) × (value ≡ some (before ++ (t ++ after))))

    -- Neither PATH nor DOTNET_ROOT has the folder of the executable in it.
    abbrev pub IsUnnamed : Text → Type 0
    IsUnnamed exe =
        ¬ (Names environment.path (dirname exe)) × ¬ (Names environment.dotnet_root (dirname exe))

    mentions-Names : (value : Option Text) (t : Text) → (mentions value t ≡ true) ↔ Names value t
    mentions-Names none t = (λ h. cc, λ (before, (after, e)). cc)
    mentions-Names (some v) t = (
      λ h. let (before, (after, e)) = includes-parts v t h in (before, (after, ap some e)),
      λ (before, (after, e)).
          subst (λ o. mentions o t ≡ true) (sym e)
            (includes-append before (t ++ after) t (includes_prefix t after)),
    )

    neither : (a b c : Bool) → ((a && not (b || c)) ≡ true) ↔ ((a ≡ true) × (b ≢ true) × (c ≢ true))
    neither true true c = (λ h. cc, λ (x, y, z). absurd (y refl))
    neither true false true = (λ h. cc, λ (x, y, z). absurd (z refl))
    neither true false false = (λ h. (refl, (λ e. cc), λ e. cc), λ h. refl)
    neither false b c = (λ h. cc, λ (x, y, z). cc)

    -- An executable has no live dependents exactly when no session that is alive, or this one, has
    -- marked it, and the folder of the executable occurs neither in PATH nor in DOTNET_ROOT.
    pub no_live_dependents_iff :
        (exe : Text) (s : ExtensionState)
        → ((check exe s).0 ≡ true) ↔ ((unused exe (read_sessions s) ≡ true) × IsUnnamed exe)
    unfolding process_environment_depends_on_install
    no_live_dependents_iff exe s =
        let (there, back) =
          neither (unused exe (read_sessions s)) (mentions environment.path (dirname exe))
            (mentions environment.dotnet_root (dirname exe)) in
        (
          λ h.
              let (free, path, root) = there (sym (no_live_dependents_eq exe s) ∙ h) in
              (
                free,
                (
                  (λ n. path ((mentions-Names environment.path (dirname exe)).1 n)),
                  λ n. root ((mentions-Names environment.dotnet_root (dirname exe)).1 n),
                ),
              ),
          λ (free, (path, root)).
              no_live_dependents_eq exe s
              ∙ back (
                free,
                (λ m. path ((mentions-Names environment.path (dirname exe)).0 m)),
                λ m. root ((mentions-Names environment.dotnet_root (dirname exe)).0 m),
              ),
        )

    -- The check forgets no session that is alive: it keeps its executables.
    pub live_sessions_kept :
        (exe j : Text) (s : ExtensionState)
        → is_session_dead j ≡ false
        → get j (read_sessions (check exe s).1) ≡ get j (read_sessions s)
    unfolding install_has_no_live_dependents check_sessions
    live_sessions_kept exe j s alive =
        live_from-sessions j exe (read_sessions s) (read_sessions s) s alive (read-IsMapOfSets s)
          refl

    -- What a session that is alive has marked is not given up: after the mark the executable has a
    -- live dependent.
    pub marked_is_in_use :
        (exe id : Text) (s : ExtensionState)
        → (id === this_session || not (is_session_dead id)) ≡ true
        → (check exe (mark_install_as_in_use_with_install_lock exe id s)).0 ≡ false
    marked_is_in_use exe id s alive =
        let s' = mark_install_as_in_use_with_install_lock exe id s in
        let paths = add exe (paths_or_none (get id (read_sessions s))) in
        let held : has exe paths ≡ true =
          has-add exe exe (paths_or_none (get id (read_sessions s))) ∙ rw (===_self exe) in
        ground (
          arith,
          no_live_dependents_eq exe s',
          unused_of_member exe id paths (read_sessions s')
              (mark_sessions exe id id s ∙ rw (===_self id)) (rw (held, alive)),
        )

    -- An install that has just been tracked has a live dependent, the session that tracked it.
    pub tracked_is_in_use :
        (path : Text) (requester : Option Text) (install : DotnetInstall) (s s' : ExtensionState)
        → add_version_to_extension_state default_architecture this_session requester install path
            (ok tt)
            s
          ≡ ok s'
        → (check path s').0 ≡ false
    unfolding add_version_to_extension_state read_sessions
    tracked_is_in_use path requester install s s' e =
        let marked = mark_install_as_in_use_with_install_lock path this_session s in
        let t = store (with_owner requester install (registered default_architecture s)) marked in
        let same : t ≡ s' = cc in
        rw (← same) (
          no_live_dependents_eq path t
          ∙ sym (no_live_dependents_eq path marked)
          ∙ marked_is_in_use path this_session s (rw (===_self this_session)))

    abbrev pub MayIgnore : Text → DotnetInstall → ExtensionState → Type 0
    MayIgnore ignore install s =
        (ignore ≢ [])
        × (can_ignore_live_dependents ignore
              (find (equivalent_to install) (registered default_architecture s))
            ≡ true)

    -- By the two tests of the source, and by what they look for.
    abbrev IsUnusedByTests : Text → ExtensionState → Type 0
    IsUnusedByTests exe s =
        (unused exe (read_sessions s) ≡ true)
        × (process_environment_depends_on_install environment dirname exe ≡ false)

    abbrev pub IsUnused : Text → ExtensionState → Type 0
    IsUnused exe s = (unused exe (read_sessions s) ≡ true) × IsUnnamed exe

    unnamed :
        (exe : Text)
        → process_environment_depends_on_install environment dirname exe ≡ false
        → IsUnnamed exe
    unfolding process_environment_depends_on_install
    unnamed exe h =
        let (_, path, root) =
          (neither true (mentions environment.path (dirname exe))
              (mentions environment.dotnet_root (dirname exe))).0
            (ap not h) in
        (
          λ n. path ((mentions-Names environment.path (dirname exe)).1 n),
          λ n. root ((mentions-Names environment.dotnet_root (dirname exe)).1 n),
        )

    besides_sound :
        (exe : Text) (install : DotnetInstall) (ignore : Text) (s : ExtensionState)
        → (install_has_no_live_dependents_besides_id this_session is_session_dead environment
            dirname default_architecture exe true ignore
            (some install)
            s).0
          ≡ true
        → MayIgnore ignore install s ⊎ IsUnusedByTests exe s
    unfolding install_has_no_live_dependents_besides_id check_sessions
    besides_sound exe install ignore s e = ground (
      arith,
      ===_iff ignore [],
      live_from-unused exe (read_sessions s) (read_sessions s) s,
      live_from-unused exe (read_sessions s) (read_sessions s)
          (get_existing_installs default_architecture s).1,
    )

    -- Where no id is tracked twice, an install is said to have no dependents only if no registered
    -- owner stands in the way and either the live dependents can be ignored, as all owners can, or no
    -- session uses its executable and neither PATH nor DOTNET_ROOT has the folder of the executable
    -- in it.
    pub no_dependents_sound :
        (exe : Text) (install : DotnetInstall) (allow : Bool) (ignore : Text) (s : ExtensionState)
        → IsTracked default_architecture s
        → (install_has_no_dependents default_architecture this_session is_session_dead environment
            dirname install exe allow ignore s).0
          ≡ true
        → (no_dependents allow ignore (owners_of default_architecture install.install_id s) ≡ true)
          × (MayIgnore ignore install s ⊎ IsUnused exe s)
    unfolding install_has_no_dependents
    no_dependents_sound exe install allow ignore s h e =
        let s' = (get_existing_installs default_architecture s).1 in
        let (first, second) = (and-eq-true_iff _ _).0 e in
        (
          sym (no_registered_dependents_iff default_architecture install allow ignore s h) ∙ first,
          elim (rw (registered-again default_architecture s) at
              (besides_sound exe install ignore s' second)) [
                | inl ignored ↦ inl ignored
                | inr (free, test) ↦ inr (free, unnamed exe test)
              ],
        )
