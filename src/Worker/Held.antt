-- ===== src/Worker/Held.antt =====
-- DotnetCoreAcquisitionWorker.ts `acquireGlobalCore`, `getSimilarExistingInstall`: what they have
-- done where they return a path.
use vscode_dotnet_runtime.Prelude.{
  ◌≡◌, ap, ap₂, ◌∙◌, Bool, true, false, Bool-cases, inl, inr, Option, none, some, List, [], ◌∷◌,
  ◌||◌, not, Result, ok, and_then, and_then-eq-ok, if◌then◌else◌, ◌⊎◌, subst,
}
use vscode_dotnet_runtime.Text.{Text, ◌===◌, codes}
use vscode_dotnet_runtime.Install.{
  Architecture, AcquireContext, DotnetInstall, get_install_from_context,
}
use vscode_dotnet_runtime.Tracker.State.{InstallRecord, get_existing_installs}
use vscode_dotnet_runtime.Files.{validate_dotnet_install}
use vscode_dotnet_runtime.Worker.{Host, Machine, track_installed_version, invalidate_entries}
use vscode_dotnet_runtime.Worker.Local.{get_valid_existing_install_path}
use vscode_dotnet_runtime.Worker.Global.{
  GlobalInstaller, constructed, path_of_sdk, completed, after_installer, run_installer,
  unless_existing, look_up, find_or_install, with_installer, acquire_global_core,
}
use vscode_dotnet_runtime.Worker.Existing.{
  is_similar, path_of_existing, consider, try_similar, similar_from, get_similar_existing_install,
}
use vscode_dotnet_runtime.Worker.Tracked.{IsHeld, tracked_last}
use vscode_dotnet_runtime.Worker.Acquired.{existing-IsHeld}

some_injective : {a b : Text} → some a ≡ some b → a ≡ b
some_injective h = cc

module _ {D C V : Type 0} (host : Host D C V) (installer : GlobalInstaller D)
    (is_running_under_wsl is_darwin : Bool) (ctx : AcquireContext) (install : DotnetInstall) where
  completed-IsHeld :
      (path p : Text) (m m' : Machine D C)
      → completed host installer is_running_under_wsl false is_darwin ctx install path m
        ≡ (ok p, m')
      → IsHeld host ctx install p m'
  completed-IsHeld path p m m' h =
      let (_, (m₁, _, h₁)) =
        and_then-eq-ok (validate_dotnet_install host.fs path is_darwin (not is_darwin) m.disk, m)
          (λ _ t. and_then (track_installed_version host ctx install path t) (λ _ t. (ok path, t)))
          h in
      let (same, held) = tracked_last host ctx install path m₁ m' path p h₁ in
      subst (λ q. IsHeld host ctx install q m') same held

  installer-IsHeld :
      (version p : Text) (m m' : Machine D C)
      → run_installer host installer is_running_under_wsl false is_darwin ctx install version m
        ≡ (ok p, m')
      → IsHeld host ctx install p m'
  installer-IsHeld version p m m' h =
      let (done, d) = installer.install_sdk install m.disk in
      let (exit_code, (m₁, _, h₁)) =
        and_then-eq-ok (done, record m { disk = d })
          (λ c t.
            after_installer host installer is_running_under_wsl false is_darwin ctx install version
              c t)
          h in
      elim (Bool-cases (not (exit_code === codes "0"))) [
        | inl bad ↦ cc (simp bad at h₁)
        | inr good ↦
            let (path, (m₂, _, h₂)) =
              and_then-eq-ok
                (
                  path_of_sdk host installer is_running_under_wsl false is_darwin ctx version true
                      m₁.disk,
                  m₁,
                )
                (λ q t.
                  completed host installer is_running_under_wsl false is_darwin ctx install q
                    (invalidate_entries host (codes "dotnet") t))
                (simp good at h₁) in
            completed-IsHeld path p (invalidate_entries host (codes "dotnet") m₂) m' h₂
      ]

  unless_existing-IsHeld :
      (version p : Text) (existing : Option Text) (m m' : Machine D C)
      → unless_existing host installer is_running_under_wsl false is_darwin ctx install version
          existing m
        ≡ (ok p, m')
      → ((existing ≡ some p) × (m ≡ m')) ⊎ IsHeld host ctx install p m'
  unless_existing-IsHeld version p (some (x ∷ xs)) m m' h = inl (cc, ap (λ t. t.1) h)
  unless_existing-IsHeld version p (some []) m m' h = inr (installer-IsHeld version p m m' h)
  unless_existing-IsHeld version p none m m' h = inr (installer-IsHeld version p m m' h)

  look_up-IsHeld :
      (version path p : Text) (rs : List InstallRecord) (m m' : Machine D C)
      → look_up host installer is_running_under_wsl false is_darwin ctx install version rs path m
        ≡ (ok p, m')
      → IsHeld host ctx install p m'
  look_up-IsHeld version path p rs m m' h =
      let (existing, (m₁, found, h₁)) =
        and_then-eq-ok (get_valid_existing_install_path host ctx rs install path m)
          (λ e t.
            unless_existing host installer is_running_under_wsl false is_darwin ctx install version
              e t)
          h in
      elim (unless_existing-IsHeld version p existing m₁ m' h₁) [
        | inl (e, same) ↦
            let (same_path, held) =
              existing-IsHeld host ctx rs install path p m m'
                (found ∙ ap₂ (λ o t. (ok o, t)) e same) in
            subst (λ q. IsHeld host ctx install q m') same_path held
        | inr held ↦ held
      ]

module _ {D C V : Type 0} (host : Host D C V) (installer : GlobalInstaller D) where
  -- When acquiring a system-wide install returns a path, and it is not the fake one for tests, the
  -- files at that path pass the validation, the requester is among the owners of the install, and
  -- the path has a live dependent.
  pub acquired_global-IsHeld :
      (wsl is_darwin : Bool) (ctx : AcquireContext) (install : DotnetInstall) (path : Text)
      (m m' : Machine D C)
      → acquire_global_core host installer wsl false is_darwin ctx install m ≡ (ok path, m')
      → IsHeld host ctx install path m'
  unfolding acquire_global_core
  acquired_global-IsHeld true is_darwin ctx install path m m' h = cc
  acquired_global-IsHeld false is_darwin ctx install path m m' h =
      let (rs, s) = get_existing_installs host.default_architecture m.state in
      let (version, (m₁, _, h₁)) =
        and_then-eq-ok (installer.fully_specified_version, m)
          (λ v t. with_installer host installer false false is_darwin ctx install v rs s t) h in
      let (_, (m₂, _, h₂)) =
        and_then-eq-ok (constructed host installer, record m₁ { state = s })
          (λ _ t. find_or_install host installer false false is_darwin ctx install version rs t)
          h₁ in
      let (p, (m₃, _, h₃)) =
        and_then-eq-ok
          (path_of_sdk host installer false false is_darwin ctx version false m₂.disk, m₂)
          (λ q t. look_up host installer false false is_darwin ctx install version rs q t) h₂ in
      look_up-IsHeld host installer false is_darwin ctx install version p path rs m₃ m' h₃

module _ {D C V : Type 0} (host : Host D C V)
    (expected_global_sdk_path : Text → Architecture → D → Result Text) where
  -- An install of the list, at its path, that is similar to the wanted one.
  abbrev pub IsFoundIn :
      AcquireContext → DotnetInstall → List InstallRecord → Text → Machine D C → Type 0
  IsFoundIn ctx wanted [] p m' = ⊥
  IsFoundIn ctx wanted (r ∷ rs) p m' =
      ((is_similar host expected_global_sdk_path r.dotnet_install wanted ≡ ok true)
        × IsHeld host ctx r.dotnet_install p m')
      ⊎ IsFoundIn ctx wanted rs p m'

  consider-IsHeld :
      (ctx : AcquireContext) (install : DotnetInstall) (m m' : Machine D C)
      (later : Result (Option Text) × Machine D C) (path p : Text)
      → consider host expected_global_sdk_path ctx install m later path ≡ (ok (some p), m')
      → IsHeld host ctx install p m' ⊎ (later ≡ (ok (some p), m'))
  consider-IsHeld ctx install m m' later path p h =
      elim (Bool-cases (host.fs.exists path m.disk || host.using_no_install_invoker)) [
        | inl there ↦
            let (same, held) =
              tracked_last host ctx install path m m' (some path) (some p) (rw there at h) in
            inl (subst (λ q. IsHeld host ctx install q m') (some_injective same) held)
        | inr missing ↦ inr (rw missing at h)
      ]

  similar_from-IsFoundIn :
      (ctx : AcquireContext) (wanted : DotnetInstall) (rs : List InstallRecord) (m m' : Machine D C)
      (p : Text)
      → similar_from host expected_global_sdk_path ctx wanted rs m ≡ (ok (some p), m')
      → IsFoundIn ctx wanted rs p m'
  unfolding similar_from
  similar_from-IsFoundIn ctx wanted [] m m' p h = cc
  similar_from-IsFoundIn ctx wanted (r ∷ rs) m m' p h =
      let exp = expected_global_sdk_path in
      let later = similar_from host exp ctx wanted rs m in
      let (similar, (t, known, rest)) =
        and_then-eq-ok (is_similar host exp r.dotnet_install wanted, m)
          (λ b _. if b then try_similar host exp ctx r.dotnet_install m later else later) h in
      elim (Bool-cases similar) [
        | inr other ↦ inr (similar_from-IsFoundIn ctx wanted rs m m' p (rw other at rest))
        | inl same ↦
            let (path, (u, _, last)) =
              and_then-eq-ok (path_of_existing host exp r.dotnet_install m.disk, m)
                (λ q _. consider host exp ctx r.dotnet_install m later q) (rw same at rest) in
            elim (consider-IsHeld ctx r.dotnet_install m m' later path p last) [
              | inl held ↦ inl (cc, held)
              | inr later_found ↦ inr (similar_from-IsFoundIn ctx wanted rs m m' p later_found)
            ]
      ]

  -- When `getSimilarExistingInstall` returns a path, that belongs to an install of the tracked ones
  -- that has the mode, the architecture, the scope and the major and minor version of the request;
  -- its files pass the validation, the requester is among its owners, and it has a live dependent.
  pub similar-IsHeld :
      (ctx : AcquireContext) (path : Text) (m m' : Machine D C)
      → get_similar_existing_install host expected_global_sdk_path ctx m ≡ (ok (some path), m')
      → IsFoundIn ctx
          (get_install_from_context host.default_architecture ctx)
          (get_existing_installs host.default_architecture m.state).0
          path
          m'
  unfolding get_similar_existing_install
  similar-IsHeld ctx path m m' h =
      let (rs, s) = get_existing_installs host.default_architecture m.state in
      similar_from-IsFoundIn ctx (get_install_from_context host.default_architecture ctx) rs
        (record m { state = s }) m' path h
