-- ===== src/Worker/Acquired.antt =====
-- DotnetCoreAcquisitionWorker.ts: what an acquisition that returns a path has done.
use vscode_dotnet_runtime.Prelude.{
  ◌≡◌, ap, ◌∙◌, Bool, true, false, Bool-cases, inl, inr, Option, none, some, List, Result, ok,
  throw, and_then-eq-ok, ◌&&◌, ◌||◌, any_of, ◌⊎◌, ap₂,
}
use vscode_dotnet_runtime.Text.{Text}
use vscode_dotnet_runtime.Install.{AcquireContext, DotnetInstall}
use vscode_dotnet_runtime.Tracker.State.{InstallRecord, get_existing_installs, equivalent_to}
use vscode_dotnet_runtime.Worker.{
  Host, Machine, dotnet_path_of, still_valid, sdk_is_found, is_global_request, validated,
  invalidate_entries,
}
use vscode_dotnet_runtime.Worker.Local.{
  get_valid_existing_install_path, when_checked, when_sdk_found, found,
  remove_matching_legacy_install, with_defaults, install_new, track_new, replace_legacy,
  validate_and_track, unless_found, acquire_local_core,
}
use vscode_dotnet_runtime.Worker.Tracked.{IsHeld, tracked_last}

module _ {D C V : Type 0} (host : Host D C V) where
  found-IsHeld :
      (ctx : AcquireContext) (install : DotnetInstall) (path p : Text) (m m' : Machine D C)
      → found host ctx install path m ≡ (ok (some p), m')
      → (path ≡ p) × IsHeld host ctx install path m'
  found-IsHeld ctx install path p m m' h =
      let (same, held) = tracked_last host ctx install path m m' (some path) (some p) h in
      (cc, held)

  sdk_found-IsHeld :
      (ctx : AcquireContext) (install : DotnetInstall) (path p : Text) (m m' : Machine D C)
      (t : Result Bool)
      → when_sdk_found host ctx install path m t ≡ (ok (some p), m')
      → (path ≡ p) × IsHeld host ctx install path m'
  sdk_found-IsHeld ctx install path p m m' (ok true) h = found-IsHeld ctx install path p m m' h
  sdk_found-IsHeld ctx install path p m m' (ok false) h = cc
  sdk_found-IsHeld ctx install path p m m' (throw error) h = cc

  checked-IsHeld :
      (ctx : AcquireContext) (install : DotnetInstall) (path p : Text) (m m' : Machine D C)
      (t : Result Bool)
      → when_checked host ctx install path m t ≡ (ok (some p), m')
      → (path ≡ p) × IsHeld host ctx install path m'
  checked-IsHeld ctx install path p m m' (ok true) h =
      elim (Bool-cases (is_global_request ctx.install_type)) [
        | inl g ↦
            sdk_found-IsHeld ctx install path p m m' (sdk_is_found host ctx m.disk) (rw g at h)
        | inr l ↦ found-IsHeld ctx install path p m m' (rw l at h)
      ]
  checked-IsHeld ctx install path p m m' (ok false) h = cc
  checked-IsHeld ctx install path p m m' (throw error) h = cc

  -- An existing install whose path is returned is held.
  pub existing-IsHeld :
      (ctx : AcquireContext) (installed_versions : List InstallRecord) (install : DotnetInstall)
      (path p : Text) (m m' : Machine D C)
      → get_valid_existing_install_path host ctx installed_versions install path m
        ≡ (ok (some p), m')
      → (path ≡ p) × IsHeld host ctx install path m'
  unfolding get_valid_existing_install_path
  existing-IsHeld ctx installed_versions install path p m m' h =
      elim (Bool-cases (
        any_of (equivalent_to install) installed_versions
        && (host.fs.exists path m.disk || host.using_no_install_invoker))) [
          | inl tracked ↦
              checked-IsHeld ctx install path p m m' (still_valid host ctx path m.disk)
                (rw tracked at h)
          | inr untracked ↦ cc (rw untracked at h)
        ]

  module _ (install_dotnet : DotnetInstall → D → Result (Unit {0}) × D) where
    installed-IsHeld :
        (ctx : AcquireContext) (install : DotnetInstall) (installed_versions : List InstallRecord)
        (p : Text) (m m' : Machine D C)
        → install_new host install_dotnet ctx install installed_versions m ≡ (ok p, m')
        → (dotnet_path_of host install ≡ p)
          × IsHeld host ctx install (dotnet_path_of host install) m'
    installed-IsHeld ctx install installed_versions p m m' h =
        let (done, d) = install_dotnet install m.disk in
        let dir = host.install_dir install.install_id in
        let (_, (m₁, _, h₁)) =
          and_then-eq-ok (done, record m { disk = d })
            (λ _ t.
              validate_and_track host ctx install installed_versions
                (invalidate_entries host dir t))
            h in
        let t₁ = invalidate_entries host dir m₁ in
        let (_, (m₂, _, h₂)) =
          and_then-eq-ok (validated host (dotnet_path_of host install) t₁.disk, t₁)
            (λ _ t. replace_legacy host ctx install installed_versions t) h₁ in
        let (_, (m₃, _, h₃)) =
          and_then-eq-ok (remove_matching_legacy_install host ctx installed_versions ctx.version m₂)
            (λ _ t. track_new host ctx install t) h₂ in
        tracked_last host ctx install (dotnet_path_of host install) m₃ m'
          (dotnet_path_of host install) p h₃

    unless_found-IsHeld :
        (ctx : AcquireContext) (install : DotnetInstall) (installed_versions : List InstallRecord)
        (existing : Option Text) (p : Text) (m m' : Machine D C)
        → unless_found host install_dotnet ctx install installed_versions existing m ≡ (ok p, m')
        → ((existing ≡ some p) × (m ≡ m'))
          ⊎ ((dotnet_path_of host install ≡ p)
              × IsHeld host ctx install (dotnet_path_of host install) m')
    unless_found-IsHeld ctx install installed_versions (some q) p m m' h = inl (cc, ap (λ t. t.1) h)
    unless_found-IsHeld ctx install installed_versions none p m m' h =
        inr (installed-IsHeld ctx install installed_versions p m m' h)

    -- When acquiring a local install returns a path, existing or new, that is the path of its
    -- executable; its files pass the validation, the requester is among its owners, and it has a
    -- live dependent.
    pub acquired-IsHeld :
        (ctx : AcquireContext) (install : DotnetInstall) (path : Text) (m m' : Machine D C)
        → acquire_local_core host install_dotnet ctx install m ≡ (ok path, m')
        → (dotnet_path_of host install ≡ path)
          × IsHeld host (with_defaults host ctx) install (dotnet_path_of host install) m'
    unfolding acquire_local_core
    acquired-IsHeld ctx install path m m' h =
        let ctx' = with_defaults host ctx in
        let exe = dotnet_path_of host install in
        let (records, s) = get_existing_installs host.default_architecture m.state in
        let (existing, (m₁, found, rest)) =
          and_then-eq-ok
            (get_valid_existing_install_path host ctx' records install exe (record m { state = s }))
            (λ e t. unless_found host install_dotnet ctx' install records e t) h in
        elim (unless_found-IsHeld ctx' install records existing path m₁ m' rest) [
          | inl (e, same) ↦
              existing-IsHeld ctx' records install exe path (record m { state = s }) m'
                (found ∙ ap₂ (λ o t. (ok o, t)) e same)
          | inr (e, held) ↦ (e, held)
        ]
