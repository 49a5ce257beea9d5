-- ===== src/Worker/Failed.antt =====
-- DotnetCoreAcquisitionWorker.ts: what an acquisition that fails leaves of the tracker's records.
use vscode_dotnet_runtime.Prelude.{
  ◌≡◌, refl, ap, sym, ◌∙◌, true, false, Bool-cases, inl, inr, none, List, [], ◌∷◌, arith, Result,
  ok, throw, Error, and_then, Result-cases, if◌then◌else◌, subst,
}
use vscode_dotnet_runtime.Text.{Text, ◌===◌, includes}
use vscode_dotnet_runtime.Collections.{has}
use vscode_dotnet_runtime.Install.{AcquireContext, DotnetInstall}
use vscode_dotnet_runtime.Tracker.State.{InstallRecord, ExtensionState, get_existing_installs}
use vscode_dotnet_runtime.Tracker.Installs.{report_successful_uninstall}
use vscode_dotnet_runtime.Tracker.Records.{
  ids, owners_in, owners_in-drop, owners_in-with_owner, has-keep, any-equivalent,
}
use vscode_dotnet_runtime.Tracker.Owners.{
  registered, owners_of, registered-add, registered-report, registered-again, remove_version_owners,
}
use vscode_dotnet_runtime.Files.{wipe_directory}
use vscode_dotnet_runtime.Worker.{
  Host, Machine, dotnet_path_of, validated, track_installed_version, untrack_installed_version,
  text_or_empty, invalidate_entries,
}
use vscode_dotnet_runtime.Worker.Local.{
  succeeded, after_wipe, checked_dependents, uninstall_local, existing_legacy_installs,
  remove_each_matching, remove_matching_legacy_install, get_valid_existing_install_path,
  with_defaults, track_new, replace_legacy, validate_and_track, install_new, acquire_local_core,
}
use vscode_dotnet_runtime.Worker.Tracked.{track_fails, track_done}
use vscode_dotnet_runtime.Worker.Uninstalled.{checked-owners}

-- The state after a step satisfies what holds before it and is kept by what follows.
and_then-keeps {ℓ κ} :
    {S : Type κ} {A B : Type ℓ} (P : S → Type κ) (first : Result A × S)
    (next : A → S → Result B × S)
    → P first.1
    → ((a : A) (s : S) → P s → P (next a s).1)
    → P (and_then first next).1
and_then-keeps P (ok a, s) next p f = f a s p
and_then-keeps P (throw e, s) next p f = p

module _ {D C V : Type 0} (host : Host D C V) (j : Text) where
  abbrev IsUntracked : Machine D C → Type 0
  IsUntracked m = owners_of host.default_architecture j m.state ≡ none

  report_keeps :
      (install : DotnetInstall) (s : ExtensionState)
      → owners_of host.default_architecture j
          (report_successful_uninstall host.default_architecture install s)
        ≡ (if install.install_id === j then none else owners_of host.default_architecture j s)
  report_keeps install s =
      ap (owners_in j) (registered-report host.default_architecture install s)
      ∙ owners_in-drop install j (registered host.default_architecture s)

  track_keeps :
      (ctx : AcquireContext) (install : DotnetInstall) (path : Text) (m : Machine D C)
      → (install.install_id === j) ≡ false
      → IsUntracked m
      → IsUntracked (track_installed_version host ctx install path m).1
  track_keeps ctx install path m other u = elim (Result-cases (validated host path m.disk)) [
    | inl (x, e) ↦
        let (s', added, done) = track_done host ctx install path m e in
        let owners : owners_of host.default_architecture j s' ≡ none =
          ap (owners_in j) (
            registered-add host.default_architecture host.this_session path
              ctx.requesting_extension_id install m.state s' added)
          ∙ owners_in-with_owner install ctx.requesting_extension_id j
              (registered host.default_architecture m.state)
          ∙ rw other u in
        rw done owners
    | inr (error, e) ↦ rw (track_fails host ctx install path m error e) u
  ]

  wiped_keeps :
      (ctx : AcquireContext) (install : DotnetInstall) (wiped : Result (Unit {0})) (m : Machine D C)
      → (install.install_id === j) ≡ false
      → IsUntracked m
      → IsUntracked (after_wipe host ctx install wiped m).1
  wiped_keeps ctx install (ok _) m other u = report_keeps install m.state ∙ rw other u
  wiped_keeps ctx install (throw e) m other u =
      and_then-keeps IsUntracked
        (track_installed_version host ctx install (dotnet_path_of host install) m) _
        (track_keeps ctx install (dotnet_path_of host install) m other u) (λ a s p. p)

  uninstall_keeps :
      (ctx : AcquireContext) (install : DotnetInstall) (m : Machine D C)
      → (install.install_id === j) ≡ false
      → IsUntracked m
      → IsUntracked (uninstall_local host ctx install false false m).1
  unfolding uninstall_local
  uninstall_keeps ctx install m other u =
      let t = untrack_installed_version host ctx install false m in
      let ignore = text_or_empty ctx.requesting_extension_id in
      let (free, t') = checked_dependents host ctx install false false t in
      let kept : IsUntracked t' =
        checked-owners host install ignore t.state j
        ∙ remove_version_owners host.default_architecture ctx.requesting_extension_id install false
            m.state j
        ∙ rw other u in
      let (wiped, d) =
        wipe_directory host.fs (host.install_dir install.install_id) none true t'.disk in
      elim (Bool-cases install.is_global) [
        | inl global ↦ simp global u
        | inr local ↦ elim (Bool-cases free) [
          | inl unused ↦
              simp (local, unused)
                (wiped_keeps ctx install wiped (record t' { disk = d }) other kept)
          | inr used ↦ simp (local, used) kept
        ]
      ]

  remove_each_keeps :
      (ctx : AcquireContext) (version : Text) (rs : List InstallRecord) (m : Machine D C)
      → has j (ids rs) ≡ false
      → IsUntracked m
      → IsUntracked (remove_each_matching host ctx version rs m).1
  unfolding remove_each_matching has
  remove_each_keeps ctx version [] m h u = u
  remove_each_keeps ctx version (r ∷ rs) m h u =
      and_then-keeps IsUntracked
        (if includes r.dotnet_install.install_id version
          then uninstall_local host ctx r.dotnet_install false false m
          else (ok succeeded, m))
        (λ _ t. remove_each_matching host ctx version rs t)
        (ground (arith, uninstall_keeps ctx r.dotnet_install m (ground arith) u))
        (λ a t p. remove_each_keeps ctx version rs t (ground arith) p)

  legacy_keeps :
      (ctx : AcquireContext) (version : Text) (rs : List InstallRecord) (m : Machine D C)
      → has j (ids rs) ≡ false
      → IsUntracked m
      → IsUntracked (remove_matching_legacy_install host ctx rs version m).1
  unfolding remove_matching_legacy_install existing_legacy_installs
  legacy_keeps ctx version rs m h u = remove_each_keeps ctx version _ m (has-keep _ j rs h) u

module _ {D C V : Type 0} (host : Host D C V) (ctx : AcquireContext) (install : DotnetInstall) where
  abbrev Untracked : Machine D C → Type 0
  Untracked = IsUntracked host install.install_id

  -- A step that throws leaves the install untracked.
  abbrev Fails {ℓ} : {A : Type ℓ} → Result A × Machine D C → Type 0
  Fails (ok a, m) = Unit
  Fails (throw e, m) = Untracked m

  track-Fails_untracked :
      (path : Text) (m : Machine D C)
      → Untracked m
      → Fails (track_installed_version host ctx install path m)
  track-Fails_untracked path m u = elim (Result-cases (validated host path m.disk)) [
    | inl (x, e) ↦ rw (track_done host ctx install path m e).2 tt
    | inr (error, e) ↦ rw (track_fails host ctx install path m error e) u
  ]

  and_then-Fails {ℓ} :
      {A B : Type ℓ} (first : Result A × Machine D C)
      (next : A → Machine D C → Result B × Machine D C)
      → Fails first
      → ((a : A) (t : Machine D C) → first ≡ (ok a, t) → Fails (next a t))
      → Fails (and_then first next)
  and_then-Fails (ok a, t) next p f = f a t refl
  and_then-Fails (throw e, t) next p f = p

  -- A step that leaves the install untracked, whatever it gives.
  step-Fails {ℓ} : {A : Type ℓ} (r : Result A × Machine D C) → Untracked r.1 → Fails r
  step-Fails (ok a, m) u = tt
  step-Fails (throw e, m) u = u

  after {ℓ} :
      {A : Type ℓ} (r : Result A × Machine D C) (a : A) (t : Machine D C)
      → Untracked r.1
      → r ≡ (ok a, t)
      → Untracked t
  after r a t u e =
      ap (λ q. owners_of host.default_architecture install.install_id q.1.state) (sym e) ∙ u

  -- An untracked install is not taken for an existing one.
  not_existing :
      (rs : List InstallRecord) (path : Text) (m : Machine D C)
      → has install.install_id (ids rs) ≡ false
      → get_valid_existing_install_path host ctx rs install path m ≡ (ok none, m)
  unfolding get_valid_existing_install_path
  not_existing rs path m h = rw (any-equivalent install rs, h)

  module _ (install_dotnet : DotnetInstall → D → Result (Unit {0}) × D) where
    install_new-Fails :
        (rs : List InstallRecord) (m : Machine D C)
        → has install.install_id (ids rs) ≡ false
        → Untracked m
        → Fails (install_new host install_dotnet ctx install rs m)
    install_new-Fails rs m h u =
        let (done, d) = install_dotnet install m.disk in
        let dir = host.install_dir install.install_id in
        let exe = dotnet_path_of host install in
        let first : Result (Unit {0}) × Machine D C = (done, record m { disk = d }) in
        and_then-Fails first
          (λ _ t. validate_and_track host ctx install rs (invalidate_entries host dir t))
          (step-Fails first u)
          (λ a₁ m₁ e₁.
            let t₁ = invalidate_entries host dir m₁ in
            let second : Result (Unit {0}) × Machine D C = (validated host exe t₁.disk, t₁) in
            let u₁ : Untracked t₁ = after first a₁ m₁ u e₁ in
            and_then-Fails second (λ _ t. replace_legacy host ctx install rs t)
              (step-Fails second u₁)
              (λ a₂ m₂ e₂.
                let third = remove_matching_legacy_install host ctx rs ctx.version m₂ in
                let u₂ =
                  legacy_keeps host install.install_id ctx ctx.version rs m₂ h
                    (after second a₂ m₂ u₁ e₂) in
                and_then-Fails third (λ _ t. track_new host ctx install t) (step-Fails third u₂)
                  (λ a₃ m₃ e₃.
                    and_then-Fails (track_installed_version host ctx install exe m₃)
                      (λ _ t. (ok exe, t)) (track-Fails_untracked exe m₃ (after third a₃ m₃ u₂ e₃))
                      (λ a₄ m₄ e₄. tt))))

module _ {D C V : Type 0} (host : Host D C V)
    (install_dotnet : DotnetInstall → D → Result (Unit {0}) × D) where
  absent_of_none :
      (id : Text) (rs : List InstallRecord) → owners_in id rs ≡ none → has id (ids rs) ≡ false
  unfolding owners_in has
  absent_of_none id [] e = refl
  absent_of_none id (r ∷ rs) e = ground (arith, absent_of_none id rs)

  -- An acquisition of a local install that was not tracked and that fails, at whatever step, leaves
  -- it untracked.
  pub failed_acquisition_untracked :
      (ctx : AcquireContext) (install : DotnetInstall) (error : Error) (m m' : Machine D C)
      → owners_of host.default_architecture install.install_id m.state ≡ none
      → acquire_local_core host install_dotnet ctx install m ≡ (throw error, m')
      → owners_of host.default_architecture install.install_id m'.state ≡ none
  unfolding acquire_local_core
  failed_acquisition_untracked ctx install error m m' u h =
      let ctx' = with_defaults host ctx in
      let (rs, s) = get_existing_installs host.default_architecture m.state in
      let t = record m { state = s } in
      let none_there = absent_of_none install.install_id rs u in
      let u' : owners_of host.default_architecture install.install_id s ≡ none =
        ap (owners_in install.install_id) (registered-again host.default_architecture m.state)
        ∙ u in
      let missing = not_existing host ctx' install rs (dotnet_path_of host install) t none_there in
      let run : install_new host install_dotnet ctx' install rs t ≡ (throw error, m') =
        simp missing at h in
      subst (Fails host ctx' install) run
        (install_new-Fails host ctx' install install_dotnet rs t none_there u')
