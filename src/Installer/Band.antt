-- ===== src/Installer/Band.antt =====
-- GlobalInstallerResolver.ts `getNewestSpecificVersionFromFeatureBand`: what a feature band gives.
use mathlib.Core.List.{Memᴰ}
use mathlib.Core.List.Memᴰ.{head, tail}
use vscode_dotnet_runtime.Prelude.{
  ◌≡◌, refl, sym, ap, ◌∙◌, inl, inr, true, Bool-cases, >>=-eq-ok, Option, none, some, List, [], ◌∷◌,
  subst, ok_injective, Result, ok,
}
use vscode_dotnet_runtime.Text.{Text, ◌===◌, ===_iff}
use vscode_dotnet_runtime.Version.{get_feature_band_from_version, get_major_minor}
use vscode_dotnet_runtime.Installer.{
  Sdk, Release, ReleaseIndex, first_sdks, get_index_url, not_empty, items_of, defined, releases_of,
  fetch_json_object_from_url, first_of_band, get_newest_specific_version_from_feature_band,
}
use vscode_dotnet_runtime.Installer.Sound.{defined-ok}

in_band :
    (band : Text) (sdks : List Sdk) {version : Text}
    → first_of_band band sdks ≡ ok version
    → (sdk : Sdk) × Memᴰ sdk sdks
      × (sdk.version ≡ some version)
      × (get_feature_band_from_version version true ≡ ok band)
unfolding first_of_band
in_band band [] h = cc
in_band band (sdk ∷ sdks) {version} h =
    let (v, e, g) = >>=-eq-ok (defined sdk.version) _ h in
    let (its, e', g') = >>=-eq-ok (get_feature_band_from_version v true) _ g in
    elim (Bool-cases (its === band)) [
      | inl same ↦
          let q = ok_injective (rw same at g') in
          (
            sdk,
            head refl,
            defined-ok sdk.version e ∙ ap some q,
            ap (λ t. get_feature_band_from_version t true) (sym q)
                ∙ e'
                ∙ ap ok ((===_iff its band).0 same),
          )
      | inr other ↦ let (s, m, w, b) = in_band band sdks (rw other at g') in (s, tail m, w, b)
    ]

first_release :
    (o : Option (List Release)) {releases : List Release} {sdks : List Sdk}
    → not_empty (items_of o) ≡ ok releases
    → first_sdks releases ≡ ok sdks
    → (release : Release) × (rest : List Release) × (o ≡ some (release ∷ rest))
      × (release.sdks ≡ some sdks)
first_release none h f = cc
first_release (some []) h f = cc
first_release (some (r ∷ rs)) {releases} {sdks} h f =
    (r, rs, refl, defined-ok r.sdks (subst (λ x. first_sdks x ≡ ok sdks) (sym (ok_injective h)) f))

-- A version with a feature band and no patch is resolved only to the version of an SDK of the first
-- release of the index of its major and minor, with the feature band that was asked for.
pub newest_has_band :
    (fetch : Text → Result (Option ReleaseIndex)) (version : Text) (specific : Text)
    → get_newest_specific_version_from_feature_band fetch version ≡ ok specific
    → (major_minor : Text) × (index : ReleaseIndex) × (release : Release) × (rest : List Release)
      × (sdk : Sdk) × (get_major_minor version ≡ ok major_minor)
      × (fetch (get_index_url major_minor) ≡ ok (some index))
      × (index.releases ≡ some (release ∷ rest))
      × Memᴰ sdk (items_of release.sdks)
      × (sdk.version ≡ some specific)
      × (get_feature_band_from_version specific true ≡ get_feature_band_from_version version true)
unfolding get_newest_specific_version_from_feature_band fetch_json_object_from_url
newest_has_band fetch version specific h =
    let (band, eb, g) = >>=-eq-ok (get_feature_band_from_version version true) _ h in
    let (mm, em, g1) = >>=-eq-ok (get_major_minor version) _ g in
    let (index, ei, g2) = >>=-eq-ok (fetch_json_object_from_url fetch (get_index_url mm)) _ g1 in
    let (whole, ef, ew) = >>=-eq-ok (fetch (get_index_url mm)) _ ei in
    let (releases, er, g3) = >>=-eq-ok (releases_of index) _ g2 in
    let (sdks, es, g4) = >>=-eq-ok (first_sdks releases) _ g3 in
    let (release, rest, ir, rsdks) = first_release index.releases er es in
    let (sdk, m, v, b) = in_band band sdks g4 in
    (
      mm,
      index,
      release,
      rest,
      sdk,
      em,
      ef ∙ ap ok (defined-ok whole ew),
      ir,
      subst (λ o. Memᴰ sdk (items_of o)) (sym rsdks) m,
      v,
      b ∙ sym eb,
    )
