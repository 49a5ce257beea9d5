-- ===== src/Installer/Routed.antt =====
-- GlobalInstallerResolver.ts `routeRequestToProperVersionRequestType`: which version and which index a
-- request is routed to.
use mathlib.Core.List.{Memᴰ}
use vscode_dotnet_runtime.Prelude.{
  ◌≡◌, ◌⊎◌, ◌-◌, ◌==◌, refl, ap, sym, subst, ◌∙◌, inl, inr, true, Bool-cases, >>=-eq-ok, tested,
  ok_injective, Option, none, some, List, [], ◌∷◌, ◌++◌, arith, Result, ok, length, ltb,
  if◌then◌else◌, All,
}
use vscode_dotnet_runtime.Text.{Text, codes}
use vscode_dotnet_runtime.Text.Split.{Lacks, join, join-split, split-Lacks, split-ne-nil}
use vscode_dotnet_runtime.Version.{
  parts, get_major_minor, get_feature_band_from_version,
  is_non_specific_major_or_major_minor_version, is_non_specific_feature_banded_version,
  is_fully_specified_version,
}
use vscode_dotnet_runtime.Installer.{
  Sdk, Release, ReleaseIndex, text_or_empty, get_index_url, fetch_json_object_from_url, items_of,
  find_correct_installer_url_and_hash, get_newest_specific_version_from_feature_band,
}
use vscode_dotnet_runtime.Installer.Route.{
  Resolved, with_installer, route_request_to_proper_version_request_type,
}
use vscode_dotnet_runtime.Installer.Sound.{installer_found, defined-ok}
use vscode_dotnet_runtime.Installer.Band.{newest_has_band}

-- The text that names the index of a major, or of a major and a minor.
abbrev pub IsNamed : Text → Text → Type 0
IsNamed version major_minor =
    (Lacks b'.' version × (major_minor ≡ version ++ codes ".0"))
    ⊎ ((major : Text) × ((minor : Text) × ((version ≡ major ++ b'.' ∷ minor)
            × Lacks b'.' major
            × Lacks b'.' minor
            × (major_minor ≡ version))))

abbrev index_name : Text → Text
index_name version = if length (parts version) - 1 == 0 then version ++ codes ".0" else version

index_name-IsNamed :
    (version : Text)
    → is_non_specific_major_or_major_minor_version version ≡ true
    → IsNamed version (index_name version)
unfolding is_non_specific_major_or_major_minor_version
index_name-IsNamed version h = by_parts (parts version) refl
  where
    few : ltb (length (parts version) - 1) 2 ≡ true
    few = ground arith

    Lacks_of_parts : (ws : List Text) → parts version ≡ ws → All (Lacks b'.') ws
    Lacks_of_parts ws e = subst (All (Lacks b'.')) e (split-Lacks b'.' version)

    joined : (ws : List Text) → parts version ≡ ws → version ≡ join b'.' ws
    joined ws e = sym (join-split b'.' version) ∙ ap (join b'.') e

    by_parts : (ws : List Text) → parts version ≡ ws → IsNamed version (index_name version)
    by_parts [] e = let wrong = split-ne-nil b'.' version e in absurd wrong
    by_parts (w ∷ []) e =
        inl
          (subst (Lacks b'.') (sym (joined (w ∷ []) e)) ((Lacks_of_parts (w ∷ []) e).0), rw e refl)
    by_parts (w ∷ v ∷ []) e =
        let (first, (second, _)) = Lacks_of_parts (w ∷ v ∷ []) e in
        inr (w, (v, (joined (w ∷ v ∷ []) e, first, second, rw e refl)))
    by_parts (w ∷ v ∷ u ∷ us) e = let wrong = rw e at few in ground arith

module _ (extname : Text → Text) (platform arch : Text)
    (fetch : Text → Result (Option ReleaseIndex)) where
  -- A major, or a major and a minor: the latest SDK of its index.
  abbrev pub IsLatest : Text → Text → Text → Type 0
  IsLatest version major_minor resolved =
      (index : ReleaseIndex) × ((is_non_specific_major_or_major_minor_version version ≡ true)
        × IsNamed version major_minor
        × (fetch (get_index_url major_minor) ≡ ok (some index))
        × (index.latest_sdk ≡ some resolved))

  -- A feature band: an SDK of the band in the first release of the index of the major and minor.
  abbrev pub IsOfBand : Text → Text → Text → Type 0
  IsOfBand version major_minor resolved =
      (asked : Text) × ((index : ReleaseIndex) × ((release : Release) × ((rest : List Release)
            × ((sdk : Sdk) × ((is_non_specific_feature_banded_version version ≡ true)
                  × (get_major_minor version ≡ ok asked)
                  × (fetch (get_index_url asked) ≡ ok (some index))
                  × (index.releases ≡ some (release ∷ rest))
                  × Memᴰ sdk (items_of release.sdks)
                  × (sdk.version ≡ some resolved)
                  × (get_feature_band_from_version resolved true
                      ≡ get_feature_band_from_version version true)
                  × (get_major_minor resolved ≡ ok major_minor))))))

  -- A fully specified version: itself.
  abbrev pub IsItself : Text → Text → Text → Type 0
  IsItself version major_minor resolved =
      (is_fully_specified_version version ≡ ok true)
      × (resolved ≡ version)
      × (get_major_minor version ≡ ok major_minor)

  some_text : (o : Option Text) {t : Text} → o ≡ some t → some (text_or_empty o) ≡ o
  some_text none h = cc
  some_text (some t) h = refl

  -- The installer is the one of the version that is given.
  found_of_with_installer :
      (version : Option Text) (index_url : Text) {r : Resolved}
      → with_installer extname platform arch fetch version index_url ≡ ok r
      → find_correct_installer_url_and_hash extname platform arch fetch (some r.version) index_url
        ≡ ok (r.installer_url, r.installer_hash)
  found_of_with_installer version index_url {r} h =
      let (found, e, g) =
        >>=-eq-ok
          (find_correct_installer_url_and_hash extname platform arch fetch version index_url) _ h in
      let (v, i, k, f, given, ne, fetched, ms, sv, mf, os, machine, passes) =
        installer_found extname platform arch fetch version index_url found e in
      subst
        (λ x.
          find_correct_installer_url_and_hash extname platform arch fetch (some x.version) index_url
          ≡ ok (x.installer_url, x.installer_hash))
        (ok_injective g)
        (ap (λ o. find_correct_installer_url_and_hash extname platform arch fetch o index_url)
            (some_text version given)
          ∙ e)

  version_of_with_installer :
      (version : Option Text) (index_url : Text) {r : Resolved}
      → with_installer extname platform arch fetch version index_url ≡ ok r
      → version ≡ some r.version
  version_of_with_installer version index_url {r} h =
      let (found, e, g) =
        >>=-eq-ok
          (find_correct_installer_url_and_hash extname platform arch fetch version index_url) _ h in
      let (v, i, k, f, given, ne, fetched, ms, sv, mf, os, machine, passes) =
        installer_found extname platform arch fetch version index_url found e in
      sym (some_text version given) ∙ ap (λ x. some x.version) (ok_injective g)

  -- A request that is routed gives the url and the hash that the search finds for the version given, in
  -- the index of some major and minor, and the two come from the request in one of three ways. For a
  -- major, or a major and a minor, the index is the one of that text, with `.0` after a major alone,
  -- and the version is its latest SDK. For a feature band, the version is that of an SDK of the first
  -- release in the index of the band's major and minor, its band is the one asked for, and the index
  -- is that of its own major and minor. A fully specified version is kept, and the index is that of
  -- its major and minor.
  pub routed_is_found :
      (version : Text) (r : Resolved)
      → route_request_to_proper_version_request_type extname platform arch fetch version ≡ ok r
      → (major_minor : Text) × (find_correct_installer_url_and_hash extname platform arch fetch
            (some r.version)
            (get_index_url major_minor)
          ≡ ok (r.installer_url, r.installer_hash))
        × (IsLatest version major_minor r.version
            ⊎ (IsOfBand version major_minor r.version ⊎ IsItself version major_minor r.version))
  unfolding route_request_to_proper_version_request_type fetch_json_object_from_url
  routed_is_found version r h =
      elim (Bool-cases (is_non_specific_major_or_major_minor_version version)) [
        | inl major ↦
            let url = get_index_url (index_name version) in
            let (index, ei, g) =
              >>=-eq-ok (fetch_json_object_from_url fetch url) _ (rw major at h) in
            let (whole, ef, ew) = >>=-eq-ok (fetch url) _ ei in
            (
              index_name version,
              found_of_with_installer index.latest_sdk url g,
              inl (
                index,
                (
                  major,
                  index_name-IsNamed version major,
                  ef ∙ ap ok (defined-ok whole ew),
                  version_of_with_installer index.latest_sdk url g,
                ),
              ),
            )
        | inr longer ↦
            let h' = rw longer at h in
            elim (Bool-cases (is_non_specific_feature_banded_version version)) [
              | inl banded ↦
                  let (s, es, g) =
                    >>=-eq-ok (get_newest_specific_version_from_feature_band fetch version) _
                      (rw banded at h') in
                  let (mm, em, g') = >>=-eq-ok (get_major_minor s) _ g in
                  (
                    mm,
                    found_of_with_installer (some s) (get_index_url mm) g',
                    inr (
                        inl (
                          of_band version s r.version mm banded es em
                            (version_of_with_installer (some s) (get_index_url mm) g'))),
                  )
              | inr full ↦ elim (tested (is_fully_specified_version version) _ (rw full at h')) [
                | inl (e, g) ↦
                    let (mm, em, g') = >>=-eq-ok (get_major_minor version) _ g in
                    (
                      mm,
                      found_of_with_installer (some version) (get_index_url mm) g',
                      inr (
                          inr (
                            e,
                            same (version_of_with_installer (some version) (get_index_url mm) g'),
                            em,
                          )),
                    )
                | inr (e, g) ↦ cc
              ]
            ]
      ]
    where
      same : {a b : Text} → some a ≡ some b → b ≡ a
      same e = cc

      of_band :
          (version s resolved mm : Text)
          → is_non_specific_feature_banded_version version ≡ true
          → get_newest_specific_version_from_feature_band fetch version ≡ ok s
          → get_major_minor s ≡ ok mm
          → some s ≡ some resolved
          → IsOfBand version mm resolved
      of_band version s resolved mm banded es em is =
          let (asked, index, release, rest, sdk, ea, ef, ir, m, v, b) =
            newest_has_band fetch version s es in
          subst (IsOfBand version mm) (sym (same is))
            (asked, (index, (release, (rest, (sdk, (banded, ea, ef, ir, m, v, b, em))))))
