-- ===== src/WinMac/Verified.antt =====
-- WinMacGlobalInstaller.ts `installSDK`: no installer is run whose hash is not the expected one.
use vscode_dotnet_runtime.Prelude.{
  ◌≡◌, refl, sym, ap, Bool, true, false, ◌⊎◌, inl, inr, Option, none, some, [], ◌∷◌, Error, Result,
  ok, throw, and_then, and_then-eq-ok, if◌then◌else◌,
}
use vscode_dotnet_runtime.Text.{Text, codes, ◌===◌, ===_iff}
use vscode_dotnet_runtime.WinMac.{
  Desktop, WinMacGlobalInstaller, global_windows_install_with_conflicting_version_already_exists,
  installer_file_has_valid_integrity, unless_asked, download_installer, run_install,
  download_and_install, unless_conflicting, install_sdk,
}

module _ {W : Type 0} (s : Desktop W) (installer : WinMacGlobalInstaller) where
  -- What the check of a file has found, the user not being asked.
  abbrev pub HasExpectedHash : Text → W → Type 0
  HasExpectedHash file w =
      (hash : Text) × (s.get_file_hash file w ≡ some hash) × (installer.installer_hash ≡ some hash)

  expected_hash :
      (real expected : Option Text)
      → elim real [
        | none ↦ unless_asked s installer false
        | some r ↦ elim expected [ none ↦ unless_asked s installer false | some e ↦ r === e ]
      ]
        ≡ true
      → (hash : Text) × (real ≡ some hash) × (expected ≡ some hash)
  expected_hash none expected h = cc
  expected_hash (some r) none h = cc
  expected_hash (some r) (some e) h = (r, refl, ap some (sym ((===_iff r e).0 h)))

  valid-HasExpectedHash :
      (file : Text) (w : W)
      → installer_file_has_valid_integrity s installer file false w ≡ true
      → HasExpectedHash file w
  unfolding installer_file_has_valid_integrity
  valid-HasExpectedHash file w h = expected_hash (s.get_file_hash file w) installer.installer_hash h

  passed :
      (valid : Bool) (e : Error) (ran : Result Text × W) (w : W) (status : Text) (t : W)
      → (if valid then ran else (throw e, w)) ≡ (ok status, t)
      → (valid ≡ true) × (ran ≡ (ok status, t))
  passed true e ran w status t h = (refl, h)
  passed false e ran w status t h = cc

  -- The installer was downloaded or there, had the expected hash, and was run.
  abbrev pub RanVerified : W → Text → W → Type 0
  RanVerified w status t =
      (file : Text) × ((u : W) × (download_installer s installer w ≡ (ok file, u))
        × HasExpectedHash file u
        × (run_install s installer file u ≡ (ok status, t)))

  download_and_install-RanVerified :
      (w : W) (status : Text) (t : W)
      → download_and_install s installer w ≡ (ok status, t)
      → RanVerified w status t
  download_and_install-RanVerified w status t h =
      let (file, (u, downloaded, after)) = and_then-eq-ok (download_installer s installer w) _ h in
      let (valid, ran) =
        passed (installer_file_has_valid_integrity s installer file false u) _
          (run_install s installer file u) u status t after in
      (file, (u, downloaded, valid-HasExpectedHash file u valid, ran))

  -- The version that is there already, so that nothing has to be done.
  abbrev pub IsThere : W → Text → W → Type 0
  IsThere w status t =
      (global_windows_install_with_conflicting_version_already_exists installer.installing_version
          (s.installed_sdks w)
        ≡ ok installer.installing_version)
      × (status ≡ codes "0")
      × (t ≡ w)

  there :
      (same : Bool) (e : Error) (w : W) (status : Text) (t : W)
      → ◌≡◌ {A = Result Text × W}
          (if same then (ok (codes "0"), w) else (throw e, w))
          (ok status, t)
      → (same ≡ true) × (status ≡ codes "0") × (t ≡ w)
  there true e w status t h = (refl, cc, cc)
  there false e w status t h = cc

  by_conflict :
      (conflicting : Result Text) (w : W) (status : Text) (t : W)
      → and_then (conflicting, w) (unless_conflicting s installer) ≡ (ok status, t)
      → ((conflicting ≡ ok installer.installing_version) × (status ≡ codes "0") × (t ≡ w))
        ⊎ RanVerified w status t
  by_conflict (throw e) w status t h = cc
  by_conflict (ok []) w status t h = inr (download_and_install-RanVerified w status t h)
  by_conflict (ok (c ∷ cs)) w status t h =
      let (same, is_done, unchanged) =
        there (c ∷ cs === installer.installing_version) _ w status t h in
      inl (ap ok ((===_iff (c ∷ cs) installer.installing_version).0 same), is_done, unchanged)

  by_platform :
      (windows : Bool) (conflicting : Result Text) (w : W) (status : Text) (t : W)
      → (if windows
          then and_then (conflicting, w) (unless_conflicting s installer)
          else download_and_install s installer w)
        ≡ (ok status, t)
      → ((windows ≡ true)
          × ((conflicting ≡ ok installer.installing_version) × (status ≡ codes "0") × (t ≡ w)))
        ⊎ RanVerified w status t
  by_platform true conflicting w status t h = elim (by_conflict conflicting w status t h) [
    | inl is_there ↦ inl (refl, is_there)
    | inr ran ↦ inr ran
  ]
  by_platform false conflicting w status t h = inr (download_and_install-RanVerified w status t h)

  -- When an installation returns a status, either this is Windows, the version is installed already,
  -- the status is "0" and nothing has changed, or a file was run whose hash is known and the expected
  -- one.
  pub installed-RanVerified :
      (w : W) (status : Text) (t : W)
      → install_sdk s installer w ≡ (ok status, t)
      → ((s.is_windows ≡ true) × IsThere w status t) ⊎ RanVerified w status t
  unfolding install_sdk
  installed-RanVerified w status t h =
      by_platform s.is_windows
        (global_windows_install_with_conflicting_version_already_exists installer.installing_version
          (s.installed_sdks w))
        w status t h
