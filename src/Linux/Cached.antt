-- ===== src/Linux/Cached.antt =====
-- IDistroDotnetSDKProvider.ts `myVersionPackages` and `getDotnetVersionSupportStatus`: what was found is
-- kept, and asking again runs no command.
use vscode_dotnet_runtime.Prelude.{
  ◌≡◌, refl, sym, subst, ◌∙◌, Bool, true, false, none, some, Option-cases, inl, inr, List, [], ◌∷◌,
  Result, ok, and_then-eq-ok,
}
use vscode_dotnet_runtime.Text.{Text}
use vscode_dotnet_runtime.Install.{DotnetInstallMode}
use vscode_dotnet_runtime.Linux.{
  Platform, Provider, LinuxPackageCollection, M, ◌>>=◌, lift, inject_pmc_feed,
}
use vscode_dotnet_runtime.Linux.Packages.{
  cached_or, cache_packages, found_or_injected, search_packages, packages_after_injection,
  my_version_packages, current_packages,
}
use vscode_dotnet_runtime.Linux.Operations.{
  DotnetDistroSupportStatus, status_by_packages, get_dotnet_version_support_status, is_out_of_range,
  status_in_range,
}

module _ {W : Type 0} (p : Platform W) where
  -- What a search that keeps its result leaves.
  abbrev Keeps : M W (List LinuxPackageCollection) → Type 0
  Keeps look_up =
      (s : Provider W) (found : List LinuxPackageCollection) (t : Provider W)
      → look_up s ≡ (ok found, t)
      → t.cached_my_version_packages ≡ some found

  cache_packages-Keeps : (found : List LinuxPackageCollection) → Keeps (cache_packages p found)
  cache_packages-Keeps found s found' t e = cc

  bind-Keeps :
      {A : Type 0} (m : M W A) (f : A → M W (List LinuxPackageCollection))
      → ((a : A) → Keeps (f a))
      → Keeps (m >>= f)
  bind-Keeps m f h s found t e =
      let (a, (s', _, after)) = and_then-eq-ok (m s) f e in h a s' found t after

  cached_none :
      (look_up : M W (List LinuxPackageCollection)) (s : Provider W)
      → s.cached_my_version_packages ≡ none
      → cached_or p look_up s ≡ look_up s
  cached_none look_up s h = rw h refl

  cached_some :
      (look_up : M W (List LinuxPackageCollection)) (s : Provider W)
      (found : List LinuxPackageCollection)
      → s.cached_my_version_packages ≡ some found
      → cached_or p look_up s ≡ (ok found, s)
  cached_some look_up s found h = rw h refl

  rewritten :
      {s : Provider W} {kept : List LinuxPackageCollection} {found : List LinuxPackageCollection}
      {t : Provider W}
      → s.cached_my_version_packages ≡ some kept
      → ◌≡◌ {A = Result (List LinuxPackageCollection) × Provider W} (ok kept, s) (ok found, t)
      → t.cached_my_version_packages ≡ some found
  rewritten h e = cc

  cached_or-Keeps :
      (look_up : M W (List LinuxPackageCollection)) → Keeps look_up → Keeps (cached_or p look_up)
  cached_or-Keeps look_up h s found t e = elim (Option-cases s.cached_my_version_packages) [
    | inl missing ↦ h s found t (sym (cached_none look_up s missing) ∙ e)
    | inr (kept, is_kept) ↦ rewritten is_kept (sym (cached_some look_up s kept is_kept) ∙ e)
  ]

  packages_after_injection-Keeps :
      (install_type : DotnetInstallMode) → Keeps (packages_after_injection p install_type)
  unfolding packages_after_injection
  packages_after_injection-Keeps install_type = cached_or-Keeps _ (
      bind-Keeps (search_packages p install_type p.distro_data.packages) (cache_packages p)
        cache_packages-Keeps)

  found_or_injected-Keeps :
      (install_type : DotnetInstallMode) (found : List LinuxPackageCollection)
      → Keeps (found_or_injected p install_type found)
  found_or_injected-Keeps install_type [] = bind-Keeps (inject_pmc_feed p) _ (λ _.
      bind-Keeps (packages_after_injection p install_type) (cache_packages p) cache_packages-Keeps)
  found_or_injected-Keeps install_type (x ∷ xs) = cache_packages-Keeps (x ∷ xs)

  my_version_packages-Keeps :
      (install_type : DotnetInstallMode) (tried : Bool)
      → Keeps (my_version_packages p install_type tried)
  unfolding my_version_packages
  my_version_packages-Keeps install_type true = packages_after_injection-Keeps install_type
  my_version_packages-Keeps install_type false = cached_or-Keeps _ (
      bind-Keeps (search_packages p install_type p.distro_data.packages)
        (found_or_injected p install_type) (found_or_injected-Keeps install_type))

  kept-my_version_packages :
      (install_type : DotnetInstallMode) (again : Bool) (t : Provider W)
      (found : List LinuxPackageCollection)
      → t.cached_my_version_packages ≡ some found
      → my_version_packages p install_type again t ≡ (ok found, t)
  unfolding my_version_packages packages_after_injection
  kept-my_version_packages install_type true t found h = rw h refl
  kept-my_version_packages install_type false t found h = rw h refl

  -- Once the packages were found, asking again, for any install mode and whether or not the feed was
  -- injected, gives the same packages and leaves the provider and the machine as they are.
  pub packages_are_kept :
      (install_type other : DotnetInstallMode) (tried again : Bool) (s : Provider W)
      (found : List LinuxPackageCollection) (t : Provider W)
      → my_version_packages p install_type tried s ≡ (ok found, t)
      → my_version_packages p other again t ≡ (ok found, t)
  packages_are_kept install_type other tried again s found t e =
      kept-my_version_packages other again t found
        (my_version_packages-Keeps install_type tried s found t e)

  lifted :
      {A : Type 0} {r : Result A} {a : A} {s t : Provider W}
      → lift r s ≡ (ok a, t)
      → (r ≡ ok a) × (s ≡ t)
  lifted h = (cc, cc)

  status_by_packages-again :
      (version : Text) (install_type : DotnetInstallMode) (s : Provider W)
      (status : DotnetDistroSupportStatus) (t : Provider W)
      → status_by_packages p version install_type s ≡ (ok status, t)
      → status_by_packages p version install_type t ≡ (ok status, t)
  status_by_packages-again version install_type s status t e =
      let (found, (u, got, read)) = and_then-eq-ok (current_packages p install_type s) _ e in
      let (is_status, same) = lifted read in
      let kept : current_packages p install_type t ≡ (ok found, t) =
        kept-my_version_packages install_type t.is_mid_feed_injection t found (
          subst (λ v. v.cached_my_version_packages ≡ some found) same
            (my_version_packages-Keeps install_type s.is_mid_feed_injection s found u got)) in
      rw kept (rw is_status refl)

  status_in_range-again :
      (version : Text) (install_type : DotnetInstallMode) (out : Bool) (s : Provider W)
      (status : DotnetDistroSupportStatus) (t : Provider W)
      → status_in_range p version install_type out s ≡ (ok status, t)
      → status_in_range p version install_type out t ≡ (ok status, t)
  status_in_range-again version install_type true s status t e = cc
  status_in_range-again version install_type false s status t e =
      status_by_packages-again version install_type s status t e

  -- Once the support status of a version was found, asking again gives the same status and leaves the
  -- provider and the machine as they are.
  pub support_status_is_stable :
      (version : Text) (install_type : DotnetInstallMode) (s : Provider W)
      (status : DotnetDistroSupportStatus) (t : Provider W)
      → get_dotnet_version_support_status p version install_type s ≡ (ok status, t)
      → get_dotnet_version_support_status p version install_type t ≡ (ok status, t)
  unfolding get_dotnet_version_support_status
  support_status_is_stable version install_type s status t e =
      let (out, (u, in_range, after)) = and_then-eq-ok (lift (is_out_of_range p version) s) _ e in
      let (is_out, same) = lifted in_range in
      let again = status_in_range-again version install_type out u status t after in rw is_out again
