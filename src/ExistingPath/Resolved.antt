-- ===== src/ExistingPath/Resolved.antt =====
-- ExistingPathResolver.ts `resolveExistingPath`: which path it gives, and that it is marked.
use vscode_dotnet_runtime.Prelude.{
  ◌≡◌, refl, ap, ◌∙◌, sym, subst, Bool, true, false, ◌||◌, Bool-cases, ◌⊎◌, inl, inr, Option, none,
  some, List, Result, ok, throw,
}
use vscode_dotnet_runtime.Text.{Text, ===_self}
use vscode_dotnet_runtime.Install.{DotnetInstallMode, Architecture}
use vscode_dotnet_runtime.Collections.{get, has, add}
use vscode_dotnet_runtime.Collections.Sets.{has-add}
use vscode_dotnet_runtime.Listing.{Shell, no_path, resolve_true_path}
use vscode_dotnet_runtime.Condition.{
  DotnetVersionSpecRequirement, equal, FindPathContext, DotnetListInfo, dotnet_meets_requirement,
}
use vscode_dotnet_runtime.Tracker.Sessions.{read_sessions, paths_or_none, mark_install_as_in_use}
use vscode_dotnet_runtime.Tracker.Live.{mark_sessions}
use vscode_dotnet_runtime.ExistingPath.{
  ExistingPaths, ExistingPathResolver, given, get_existing_path, with_requirement,
  provided_path_meets_api_requirement, tested_path, marked, when_met, when_tested,
  resolve_existing_path,
}
use vscode_dotnet_runtime.ExistingPath.Setting.{
  given-some, IsSettingFor, get_existing_path-IsSettingFor,
}

module _ (shell : Shell) (installs : Text → DotnetInstallMode → Architecture → List DotnetListInfo)
    (this_session : Text) where
  abbrev Meets : FindPathContext → Option DotnetVersionSpecRequirement → Text → Bool → Type 0
  Meets context requirement path b =
      dotnet_meets_requirement (installs path) shell.default_architecture
        (with_requirement context requirement)
      ≡ ok b

  -- `dotnet` at the path lists an install that meets the context, previews included, under the
  -- requirement, which is equality where none is given.
  abbrev pub HasMatch : FindPathContext → Option DotnetVersionSpecRequirement → Text → Type 0
  HasMatch context requirement path =
      (spec : DotnetVersionSpecRequirement) × (((requirement ≡ some spec)
          ⊎ ((requirement ≡ none) × (spec ≡ equal)))
        × (dotnet_meets_requirement (installs path) shell.default_architecture
              (record context { version_spec_requirement = spec; reject_previews = false })
            ≡ ok true))

  Meets-HasMatch :
      (context : FindPathContext) (requirement : Option DotnetVersionSpecRequirement) (path : Text)
      → Meets context requirement path true
      → HasMatch context requirement path
  Meets-HasMatch context none path h = (equal, (inr (refl, refl), h))
  Meets-HasMatch context (some spec) path h = (spec, (inl refl, h))

  -- What a path that is given has been through.
  when_met-some :
      (allow : Bool) (met : Result Bool) (tested path : Text) (r t : ExistingPathResolver)
      → when_met shell installs this_session allow met tested r ≡ (ok (some path), t)
      → (b : Bool) × (met ≡ ok b)
        × ((b || allow) ≡ true)
        × (tested ≡ path)
        × (marked shell installs this_session path r ≡ t)
  when_met-some allow (throw e) tested path r t h = cc
  when_met-some allow (ok b) tested path r t h = elim (Bool-cases (b || allow)) [
    | inr refused ↦ absurd (impossible (rw refused at h))
    | inl passed ↦ (b, refl, passed, same_path (rw passed at h), same_state (rw passed at h))
  ]
    where
      impossible :
          ◌≡◌ {A = Result (Option Text) × ExistingPathResolver} (ok none, r) (ok (some path), t) → ⊥
      impossible h = cc

      same_path :
          ◌≡◌ {A = Result (Option Text) × ExistingPathResolver}
            (ok (some tested), marked shell installs this_session tested r)
            (ok (some path), t)
          → tested ≡ path
      same_path h = cc

      same_state :
          ◌≡◌ {A = Result (Option Text) × ExistingPathResolver}
            (ok (some tested), marked shell installs this_session tested r)
            (ok (some path), t)
          → marked shell installs this_session path r ≡ t
      same_state h = cc

  when_tested-some :
      (allow : Bool) (o : Option Text) (context : FindPathContext)
      (requirement : Option DotnetVersionSpecRequirement) (path : Text) (r t : ExistingPathResolver)
      → when_tested shell installs this_session allow o context requirement r ≡ (ok (some path), t)
      → (b : Bool) × (o ≡ some path)
        × Meets context requirement path b
        × ((b || allow) ≡ true)
        × (marked shell installs this_session path r ≡ t)
  unfolding provided_path_meets_api_requirement
  when_tested-some allow none context requirement path r t h = cc
  when_tested-some allow (some p) context requirement path r t h =
      let met =
        provided_path_meets_api_requirement shell installs this_session p context requirement in
      let (b, is_met, passed, same, state) = when_met-some allow met p path r t h in
      (b, ap some same, subst (λ x. Meets context requirement x b) same is_met, passed, state)

  or_allowed : (b allow : Bool) → (b || allow) ≡ true → allow ≡ false → b ≡ true
  or_allowed true allow h e = refl
  or_allowed false allow h e = cc

  marked-has :
      (path : Text) (r : ExistingPathResolver)
      → has path (
          paths_or_none
            (get this_session (read_sessions (marked shell installs this_session path r).tracker)))
        ≡ true
  unfolding mark_install_as_in_use
  marked-has path r =
      let old = paths_or_none (get this_session (read_sessions r.tracker)) in
      let found : get this_session
            (read_sessions (marked shell installs this_session path r).tracker)
          ≡ some (add path old) =
        mark_sessions path this_session this_session r.tracker ∙ rw (===_self this_session) in
      ap (λ o. has path (paths_or_none o)) found ∙ has-add path path old ∙ rw (===_self path)

  -- The setting leads to the path, as it is or through the shell.
  abbrev LeadsTo : Bool → Option Text → Architecture → Text → Type 0
  LeadsTo allow setting architecture path =
      (s : Text) × (setting ≡ some s)
      × (((allow ≡ true) × (path ≡ s))
          ⊎ ((allow ≡ false) × (resolve_true_path shell s architecture ≡ some path)))

  tested_path-LeadsTo :
      (allow : Bool) (setting : Option Text) (architecture : Architecture) (path : Text)
      → tested_path shell installs this_session allow setting architecture ≡ some path
      → LeadsTo allow setting architecture path
  tested_path-LeadsTo allow none architecture path e = cc
  tested_path-LeadsTo true (some s) architecture path e = (s, refl, inl (refl, cc))
  tested_path-LeadsTo false (some s) architecture path e = elim (Bool-cases (no_path s)) [
    | inl empty ↦ absurd (not_none (rw empty at e))
    | inr filled ↦ (s, refl, inr (refl, rw filled at e))
  ]
    where
      not_none : ◌≡◌ {A = Option Text} none (some path) → ⊥
      not_none h = cc

  -- A path that is given comes from the setting for the extension, which is that of the first pair with
  -- the id of the extension, or else the shared one, and which is recorded as the last one seen. Where
  -- invalid paths are allowed it is the setting; otherwise it is the place that the setting leads to,
  -- where `dotnet` lists an install that meets the requirement, equality where none is given, with
  -- previews not rejected. And this session is recorded as a user of the path.
  pub resolved_path_meaning :
      (allow : Bool) (paths : Option ExistingPaths) (extension_id : Option Text)
      (context : FindPathContext) (requirement : Option DotnetVersionSpecRequirement)
      (r : ExistingPathResolver) (path : Text) (t : ExistingPathResolver)
      → resolve_existing_path shell installs this_session allow paths extension_id context
          requirement r
        ≡ (ok (some path), t)
      → ((setting : Text) × IsSettingFor paths extension_id setting
          × (t.last_seen_non_true_path_value ≡ some setting)
          × (((allow ≡ true) × (path ≡ setting))
              ⊎ ((allow ≡ false)
                  × (resolve_true_path shell setting context.architecture ≡ some path)
                  × HasMatch context requirement path)))
        × (has path (paths_or_none (get this_session (read_sessions t.tracker))) ≡ true)
  unfolding resolve_existing_path
  resolved_path_meaning allow paths extension_id context requirement r path t h =
      let setting = get_existing_path paths extension_id in
      let tested = tested_path shell installs this_session allow setting context.architecture in
      let seen = record r { last_seen_non_true_path_value = setting } in
      let (b, is_given, met, passed, state) =
        when_tested-some allow (given tested) context requirement path seen t h in
      let (x, is_setting, ways) =
        tested_path-LeadsTo allow setting context.architecture path
          ((given-some tested path is_given).0) in
      (
        (
          x,
          get_existing_path-IsSettingFor paths extension_id x is_setting,
          ap (λ u. u.last_seen_non_true_path_value) (sym state) ∙ is_setting,
          elim ways [
            | inl as_it_is ↦ inl as_it_is
            | inr (valid, leads) ↦ inr (
              valid,
              leads,
              Meets-HasMatch context requirement path
                  (subst (Meets context requirement path) (or_allowed b allow passed valid) met),
            )
          ],
        ),
        subst (λ u. has path (paths_or_none (get this_session (read_sessions u.tracker))) ≡ true)
            state (marked-has path seen),
      )
