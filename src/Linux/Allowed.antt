-- ===== src/Linux/Allowed.antt =====
-- LinuxVersionResolver.ts `ValidateAndInstallSDK`: where it goes ahead, the version is supported and no
-- other installation is in the way.
use vscode_dotnet_runtime.Prelude.{
  ◌≡◌, refl, sym, subst, ap, ◌∙◌, Bool, true, false, Option, none, some, [], ◌∷◌, Error, Result, ok,
  throw, and_then, and_then-eq-ok, if◌then◌else◌, ◌⊎◌, inl, inr, Bool-cases,
}
use vscode_dotnet_runtime.Text.{Text, ◌===◌, ===_iff}
use vscode_dotnet_runtime.Install.{sdk}
use vscode_dotnet_runtime.Linux.{Platform, Provider, M, pure, fail}
use vscode_dotnet_runtime.Linux.Cached.{support_status_is_stable}
use vscode_dotnet_runtime.Linux.Operations.{
  DotnetDistroSupportStatus, distro, microsoft, unsupported, partial, unknown, is_supported_status,
  get_dotnet_version_support_status, is_dotnet_version_supported,
  get_installed_global_dotnet_path_if_exists,
}
use vscode_dotnet_runtime.Linux.Resolver.{
  verify_no_conflict_install_type_exists, verify_no_custom_install_exists, is_custom,
  expected_directory, validated_install, validate_and_install_sdk,
}

module _ {W : Type 0} (p : Platform W) where
  -- The directory of the other feed.
  abbrev other_directory : DotnetDistroSupportStatus → Text
  other_directory distro = p.distro_data.expected_microsoft_feed_install_directory
  other_directory _ = p.distro_data.expected_distro_feed_install_directory

  allowed :
      (c : Bool) (m : M W Text) (e : Error) (s : Provider W) (a : Text) (t : Provider W)
      → (if c then m else fail e) s ≡ (ok a, t)
      → (c ≡ true) × (m s ≡ (ok a, t))
  allowed true m e s a t h = (refl, h)
  allowed false m e s a t h = cc

  returned : {A : Type 0} {a b : A} {s t : Provider W} → pure a s ≡ (ok b, t) → (a ≡ b) × (s ≡ t)
  returned h = (cc, cc)

  not_thrown :
      (c : Bool) (e : Error) (s t : Provider W)
      → (if c then fail e else pure tt) s ≡ (ok tt, t)
      → c ≡ false
  not_thrown true e s t h = cc
  not_thrown false e s t h = refl

  not_custom :
      (status : DotnetDistroSupportStatus) (existing : Option Text) (s t : Provider W)
      → verify_no_custom_install_exists p status existing s ≡ (ok tt, t)
      → is_custom p status existing ≡ false
  unfolding verify_no_custom_install_exists
  not_custom status existing s t h = not_thrown (is_custom p status existing) _ s t h

  guarded :
      (c : Bool) (e : Error) (u v : Provider W)
      → ◌≡◌ {A = Result (Unit {0}) × Provider W} (if c then (throw e, u) else (ok tt, u)) (ok tt, v)
      → (c ≡ false) × (u ≡ v)
  guarded true e u v h = cc
  guarded false e u v h = (refl, cc)

  no_conflict :
      (status : DotnetDistroSupportStatus) (u v : Provider W)
      → is_supported_status p status ≡ true
      → verify_no_conflict_install_type_exists p status u ≡ (ok tt, v)
      → (p.exists (other_directory status) u.machine ≡ false) × (u ≡ v)
  unfolding verify_no_conflict_install_type_exists
  no_conflict distro u v h e = guarded _ _ u v e
  no_conflict microsoft u v h e = guarded _ _ u v e
  no_conflict unsupported u v h e = cc
  no_conflict partial u v h e = cc
  no_conflict unknown u v h e = cc

  -- An installed `dotnet`, where there is one whose path is not empty, has the path of `directory`.
  abbrev pub IsInDirectory : Text → Option Text → Type 0
  IsInDirectory directory existing =
      (existing ≡ none)
      ⊎ ((existing ≡ some [])
          ⊎ ((path : Text) × (existing ≡ some path) × (p.resolve path ≡ p.resolve directory)))

  uncustomised-IsInDirectory :
      (status : DotnetDistroSupportStatus) (existing : Option Text)
      → is_custom p status existing ≡ false
      → IsInDirectory (expected_directory p status) existing
  uncustomised-IsInDirectory status none h = inl refl
  uncustomised-IsInDirectory status (some []) h = inr (inl refl)
  uncustomised-IsInDirectory status (some (x ∷ xs)) h =
      elim (Bool-cases (p.resolve (x ∷ xs) === p.resolve (expected_directory p status))) [
        | inl same ↦ inr (inr (x ∷ xs, refl, (===_iff _ _).0 same))
        | inr differs ↦ let wrong = rw differs at h in cc
      ]

  -- On a machine where the feed's directory is `own` and that of the other feed is `other`.
  abbrev pub IsUnobstructed : Text → Text → Provider W → Option Text → Type 0
  IsUnobstructed own other u existing =
      (p.exists other u.machine ≡ false) × IsInDirectory own existing

  -- What holds of a machine where an SDK of a version may be installed.
  abbrev pub IsAllowed : Text → Provider W → DotnetDistroSupportStatus → Option Text → Type 0
  IsAllowed version u status existing =
      (get_dotnet_version_support_status p version sdk u ≡ (ok status, u))
      × ((get_installed_global_dotnet_path_if_exists p u).0 ≡ ok existing)
      × (((status ≡ distro)
            × IsUnobstructed p.distro_data.expected_distro_feed_install_directory
                p.distro_data.expected_microsoft_feed_install_directory u existing)
          ⊎ ((status ≡ microsoft)
              × IsUnobstructed p.distro_data.expected_microsoft_feed_install_directory
                  p.distro_data.expected_distro_feed_install_directory u existing))

  by_feed :
      (version : Text) (status : DotnetDistroSupportStatus) (u : Provider W)
      (existing : Option Text)
      → get_dotnet_version_support_status p version sdk u ≡ (ok status, u)
      → is_supported_status p status ≡ true
      → p.exists (other_directory status) u.machine ≡ false
      → (get_installed_global_dotnet_path_if_exists p u).0 ≡ ok existing
      → is_custom p status existing ≡ false
      → IsAllowed version u status existing
  by_feed version distro u existing g h free found own =
      (g, found, inl (refl, (free, uncustomised-IsInDirectory distro existing own)))
  by_feed version microsoft u existing g h free found own =
      (g, found, inr (refl, (free, uncustomised-IsInDirectory microsoft existing own)))
  by_feed version unsupported u existing g h free found own = cc
  by_feed version partial u existing g h free found own = cc
  by_feed version unknown u existing g h free found own = cc

  run_of :
      {A : Type 0} (m : Result A × Provider W) (k : A → M W Text) {a : A} {u : Provider W}
      {b : Text} {t : Provider W}
      → m ≡ (ok a, u)
      → and_then m k ≡ (ok b, t)
      → k a u ≡ (ok b, t)
  run_of m k h e = sym (ap (λ n. and_then n k) h) ∙ e

  validated-IsAllowed :
      (version : Text) (status : DotnetDistroSupportStatus) (u : Provider W) (reported : Text)
      (t : Provider W)
      → get_dotnet_version_support_status p version sdk u ≡ (ok status, u)
      → is_supported_status p status ≡ true
      → validated_install p version u ≡ (ok reported, t)
      → (existing : Option Text) × IsAllowed version u status existing
  validated-IsAllowed version status u reported t got supported e =
      let unconflicted = run_of (get_dotnet_version_support_status p version sdk u) _ got e in
      let (_, (v, verified, searched)) =
        and_then-eq-ok (verify_no_conflict_install_type_exists p status u) _ unconflicted in
      let (free, same) = no_conflict status u v supported verified in
      let (existing, (w, is_existing, checked)) =
        and_then-eq-ok (get_installed_global_dotnet_path_if_exists p v) _ searched in
      let (_, (x, uncustomised, _)) =
        and_then-eq-ok (verify_no_custom_install_exists p status existing w) _ checked in
      let found =
        subst (λ x. (get_installed_global_dotnet_path_if_exists p x).0 ≡ ok existing) (sym same)
          (ap (λ r. r.0) is_existing) in
      (
        existing,
        by_feed version status u existing got supported free found
            (not_custom status existing w x uncustomised),
      )

  -- Where the installation of an SDK returns a status, the version is supported by the distro's feed
  -- or by Microsoft's, and, once that was found out, the install directory expected of the other feed
  -- does not exist, and the path of an installed `dotnet`, where one is found and its path is not
  -- empty, resolves to what the directory expected of the supporting feed resolves to.
  pub installed_where-IsAllowed :
      (version : Text) (s : Provider W) (reported : Text) (t : Provider W)
      → validate_and_install_sdk p version s ≡ (ok reported, t)
      → (status : DotnetDistroSupportStatus) × ((existing : Option Text) × ((u : Provider W)
            × (get_dotnet_version_support_status p version sdk s ≡ (ok status, u))
            × IsAllowed version u status existing))
  unfolding validate_and_install_sdk is_dotnet_version_supported
  installed_where-IsAllowed version s reported t e =
      let (supported, (u, asked, after)) =
        and_then-eq-ok (is_dotnet_version_supported p version sdk s) _ e in
      let (status, (v, got, answered)) =
        and_then-eq-ok (get_dotnet_version_support_status p version sdk s) _ asked in
      let (is_true, ran) = allowed supported (validated_install p version) _ u reported t after in
      let (is_supported, same) = returned answered in
      let (existing, is_allowed) =
        validated-IsAllowed version status v reported t
          (support_status_is_stable p version sdk s status v got) (is_supported ∙ is_true)
          (subst (λ x. validated_install p version x ≡ (ok reported, t)) (sym same) ran) in
      (status, (existing, (v, got, is_allowed)))
