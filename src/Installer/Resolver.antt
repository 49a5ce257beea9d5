-- ===== src/Installer/Resolver.antt =====
-- GlobalInstallerResolver.ts: the resolver's fields after a request, and the check of the url.
use vscode_dotnet_runtime.Prelude.{
  ◌≡◌, refl, ap, subst, ◌∙◌, ◌≢◌, inl, inr, true, false, Bool-cases, >>=-eq-ok, ok_injective,
  Option, some, List, [], ◌∷◌, ◌++◌, arith, Result, ok,
}
use vscode_dotnet_runtime.Text.{Text, codes, starts_with}
use vscode_dotnet_runtime.Version.{is_set}
use vscode_dotnet_runtime.Installer.{
  InstallerFile, ReleaseIndex, starts_with_any, expected_domains, set_or_null, checked,
  url_and_hash, get_index_url, find_correct_installer_url_and_hash,
}
use vscode_dotnet_runtime.Installer.Route.{
  Resolver, unresolved, get_installer_url, get_fully_specified_version, get_installer_hash,
  route_request_to_proper_version_request_type, determine_version_and_installer_url,
}
use vscode_dotnet_runtime.Installer.Sound.{installer_found}
use vscode_dotnet_runtime.Installer.Routed.{routed_is_found}

starts_with-append : (s t : Text) → starts_with (s ++ t) s ≡ true
unfolding starts_with
starts_with-append [] t = refl
starts_with-append (x ∷ xs) t = ground (arith, starts_with-append xs t)

under_third :
    (url a b c : Text) (rest : List Text)
    → starts_with url c ≡ true
    → starts_with_any url (a ∷ b ∷ c ∷ rest) ≡ true
unfolding starts_with_any
under_third url a b c rest h = ground arith

checked_of_domain :
    (url : Text) (hash : Option Text)
    → starts_with_any url expected_domains ≡ true
    → checked (some url) hash ≡ ok (url, set_or_null hash)
checked_of_domain url hash h = rw h refl

-- The url of an installer passes the check of its domain whatever follows `https://ci.dot.net`, so
-- also where that goes on as the name of another host.
pub any_suffix_of_ci_accepted :
    (file : InstallerFile) (suffix : Text)
    → file.url ≡ some (codes "https://ci.dot.net" ++ suffix)
    → url_and_hash file ≡ ok (codes "https://ci.dot.net" ++ suffix, set_or_null file.hash)
unfolding url_and_hash
any_suffix_of_ci_accepted file suffix e =
    ap (λ url. checked url file.hash) e
    ∙ checked_of_domain (codes "https://ci.dot.net" ++ suffix) file.hash (
        under_third (codes "https://ci.dot.net" ++ suffix)
          (codes "https://download.visualstudio.microsoft.com/")
          (codes "https://builds.dotnet.microsoft.com/") (codes "https://ci.dot.net")
          (codes "https://dotnetcli.blob.core.windows.net/" ∷ [])
          (starts_with-append (codes "https://ci.dot.net") suffix))

set_of_some : (t : Text) {v : Text} → some t ≡ some v → v ≢ [] → is_set t ≡ true
set_of_some [] h ne = absurd (ne (ground arith))
set_of_some (x ∷ xs) h ne = refl

set_of_domain : (t : Text) → starts_with_any t expected_domains ≡ true → is_set t ≡ true
unfolding starts_with_any starts_with
set_of_domain [] h = ground arith
set_of_domain (x ∷ xs) h = refl

module _ (extname : Text → Text) (platform arch : Text)
    (fetch : Text → Result (Option ReleaseIndex)) where
  found_is_set :
      (version : Text) (index_url : Text) (found : Text × Option Text)
      → find_correct_installer_url_and_hash extname platform arch fetch (some version) index_url
        ≡ ok found
      → (is_set version ≡ true) × (is_set (found.0) ≡ true)
  found_is_set version index_url found h =
      let (v, i, k, f, given, ne, fetched, ms, sv, mf, os, machine, (rid, ext, url, domain, hash)) =
        installer_found extname platform arch fetch (some version) index_url found h in
      (set_of_some version given ne, set_of_domain (found.0) domain)

  resolved_once_found :
      (s : Resolver) {s' : Resolver}
      → determine_version_and_installer_url extname platform arch fetch s ≡ ok s'
      → unresolved s' ≡ false
  unfolding determine_version_and_installer_url
  resolved_once_found s {s'} h = elim (Bool-cases (unresolved s)) [
    | inr known ↦ subst (λ x. unresolved x ≡ false) (ok_injective (rw known at h)) known
    | inl asked ↦
        let (r, er, g) =
          >>=-eq-ok
            (route_request_to_proper_version_request_type extname platform arch fetch
              s.requested_version)
            _ (rw asked at h) in
        let (mm, found, way) =
          routed_is_found extname platform arch fetch s.requested_version r er in
        let (v, u) = found_is_set r.version (get_index_url mm) _ found in
        subst (λ x. unresolved x ≡ false) (ok_injective g) (rw (v, u) refl)
  ]

  -- Once a resolver has found its version and installer, asking it again, for its url, its version
  -- or its hash, gives the same answers and leaves it as it is, whatever a later request of the
  -- index would give.
  pub answers_are_kept :
      (s s' : Resolver) (later : Text → Result (Option ReleaseIndex))
      → determine_version_and_installer_url extname platform arch fetch s ≡ ok s'
      → (get_installer_url extname platform arch later s' ≡ ok (s'.discovered_installer_url, s'))
        × (get_fully_specified_version extname platform arch later s'
            ≡ ok (s'.fully_specified_version_requested, s'))
        × (get_installer_hash extname platform arch later s' ≡ ok (s'.expected_installer_hash, s'))
  unfolding get_installer_url get_fully_specified_version get_installer_hash
      determine_version_and_installer_url
  answers_are_kept s s' later h =
      let e = resolved_once_found s h in (rw e refl, rw e refl, rw e refl)
