-- ===== src/Worker/Tracked.antt =====
-- DotnetCoreAcquisitionWorker.ts: what tracking an install gives, and what the worker's calls of the
-- tracker leave of its records.
use vscode_dotnet_runtime.Prelude.{
  ◌≡◌, refl, ap, ◌∙◌, sym, true, false, inl, inr, arith, ok, throw, Error, Result-cases, and_then,
  and_then-eq-ok,
}
use vscode_dotnet_runtime.Text.{Text}
use vscode_dotnet_runtime.Install.{AcquireContext, DotnetInstall}
use vscode_dotnet_runtime.Tracker.State.{ExtensionState, has_owner}
use vscode_dotnet_runtime.Tracker.Sessions.{install_has_no_live_dependents}
use vscode_dotnet_runtime.Tracker.Installs.{add_version_to_extension_state}
use vscode_dotnet_runtime.Tracker.Records.{or_empty}
use vscode_dotnet_runtime.Tracker.OwnerSets.{has_owner-add_owner, same_owner_iff}
use vscode_dotnet_runtime.Tracker.Owners.{owners_of}
use vscode_dotnet_runtime.Tracker.Ownership.{added_owners}
use vscode_dotnet_runtime.Tracker.Uninstall.{tracked_is_in_use}
use vscode_dotnet_runtime.Worker.{Host, Machine, validated, track_installed_version}

module _ {D C V : Type 0} (host : Host D C V) where
  -- The files are there, the requester owns the install, and its executable is in use.
  abbrev pub IsHeld : AcquireContext → DotnetInstall → Text → Machine D C → Type 0
  IsHeld ctx install path m =
      (validated host path m.disk ≡ ok tt)
      × (has_owner ctx.requesting_extension_id
            (or_empty (owners_of host.default_architecture install.install_id m.state))
          ≡ true)
      × ((install_has_no_live_dependents host.this_session host.is_session_dead host.environment
            host.fs.dirname host.default_architecture path m.state).0
          ≡ false)

  pub track_fails :
      (ctx : AcquireContext) (install : DotnetInstall) (path : Text) (m : Machine D C)
      (error : Error)
      → validated host path m.disk ≡ throw error
      → track_installed_version host ctx install path m ≡ (throw error, m)
  unfolding add_version_to_extension_state
  track_fails ctx install path m error e = rw e refl

  pub track_done :
      (ctx : AcquireContext) (install : DotnetInstall) (path : Text) (m : Machine D C)
      → validated host path m.disk ≡ ok tt
      → (s' : ExtensionState) × (add_version_to_extension_state host.default_architecture
            host.this_session ctx.requesting_extension_id install path
            (ok tt)
            m.state
          ≡ ok s')
        × (track_installed_version host ctx install path m ≡ (ok tt, record m { state = s' }))
  unfolding add_version_to_extension_state
  track_done ctx install path m e = (_, refl, rw e refl)

  pub track_ok :
      (ctx : AcquireContext) (install : DotnetInstall) (path : Text) (m m' : Machine D C)
      → track_installed_version host ctx install path m ≡ (ok tt, m')
      → (validated host path m.disk ≡ ok tt)
        × (add_version_to_extension_state host.default_architecture host.this_session
              ctx.requesting_extension_id install path
              (ok tt)
              m.state
            ≡ ok m'.state)
        × (m'.disk ≡ m.disk)
  track_ok ctx install path m m' h = elim (Result-cases (validated host path m.disk)) [
    | inl (u, e) ↦
        let (s', added, done) = track_done ctx install path m e in
        let same : record m { state = s' } ≡ m' = ap (λ t. t.1) (sym done ∙ h) in
        (e, added ∙ ap (λ t. ok t.state) same, ap (λ t. t.disk) (sym same))
    | inr (error, e) ↦ cc (track_fails ctx install path m error e)
  ]

  pub track-IsHeld :
      (ctx : AcquireContext) (install : DotnetInstall) (path : Text) (m m' : Machine D C)
      → track_installed_version host ctx install path m ≡ (ok tt, m')
      → IsHeld ctx install path m'
  track-IsHeld ctx install path m m' h =
      let (valid, added, disk) = track_ok ctx install path m m' h in
      (
        ap (validated host path) disk ∙ valid,
        rw
            (added_owners host.default_architecture host.this_session path
              ctx.requesting_extension_id install m.state m'.state added)
            (ground (
              arith,
              has_owner-add_owner ctx.requesting_extension_id ctx.requesting_extension_id
                  (or_empty (owners_of host.default_architecture install.install_id m.state)),
              same_owner_iff ctx.requesting_extension_id ctx.requesting_extension_id,
            )),
        tracked_is_in_use host.this_session host.is_session_dead host.environment host.fs.dirname
            host.default_architecture path ctx.requesting_extension_id install m.state m'.state
            added,
      )

  -- A last statement that tracks the install.
  pub tracked_last :
      {A : Type 0} (ctx : AcquireContext) (install : DotnetInstall) (path : Text)
      (m m' : Machine D C) (x y : A)
      → and_then (track_installed_version host ctx install path m) (λ _ t. (ok x, t)) ≡ (ok y, m')
      → (x ≡ y) × IsHeld ctx install path m'
  tracked_last ctx install path m m' x y h =
      let (u, (t, tracked, last)) =
        and_then-eq-ok (track_installed_version host ctx install path m) (λ _ t. (ok x, t)) h in
      let same : t ≡ m' = ap (λ r. r.1) last in
      (cc, track-IsHeld ctx install path m m' (tracked ∙ ap (λ t. (ok tt, t)) same))
