-- ===== src/Installer/Sound.antt =====
-- GlobalInstallerResolver.ts `findCorrectInstallerUrlAndHash`: what is known of an installer that was
-- found.
use mathlib.Core.List.{Memᴰ}
use mathlib.Core.List.Memᴰ.{head, tail}
use vscode_dotnet_runtime.Prelude.{
  ◌≡◌, refl, sym, ap, ◌∙◌, ◌≢◌, inl, inr, Bool, true, false, Bool-cases, >>=-eq-ok, Option, none,
  some, List, [], ◌∷◌, subst, ok_injective, tested, if◌then◌else◌, arith, Error, Result, ok, throw,
}
use vscode_dotnet_runtime.Text.{Text, codes, ◌===◌, ===_iff}
use vscode_dotnet_runtime.Installer.{
  InstallerFile, Sdk, Release, ReleaseIndex, node_arch_to_dotnet_arch, not_empty, specified,
  node_os_to_dotnet_os, starts_with_any, expected_domains, is_text, set_or_null, items_of, defined,
  releases_of, all_sdks, installer_matches_desired_file_extension, checked, url_and_hash,
  find_installer, find_sdk, desired_rid, fetch_json_object_from_url,
  find_correct_installer_url_and_hash,
}
use vscode_dotnet_runtime.Installer.Wanted.{
  IsHash, Answers, known-IsSystem, known-IsMachine, named-IsEnding, expected_start,
  set_or_null-IsHash,
}

-- The tests of the source that the file has passed.
abbrev pub Passes : (Text → Text) → Text → Text → Text → Text × Option Text → InstallerFile → Type 0
Passes extname version system rid found file =
    (file.rid ≡ some rid)
    × (installer_matches_desired_file_extension extname version file system ≡ ok true)
    × (file.url ≡ some (found.0))
    × (starts_with_any (found.0) expected_domains ≡ true)
    × (found.1 ≡ set_or_null file.hash)

is_text-eq : (o : Option Text) (t : Text) → is_text o t ≡ true → o ≡ some t
is_text-eq none t h = cc
is_text-eq (some s) t h = ap some ((===_iff s t).0 h)

url_of_checked :
    (url hash : Option Text) {found : Text × Option Text}
    → checked url hash ≡ ok found
    → (url ≡ some (found.0))
      × (starts_with_any (found.0) expected_domains ≡ true)
      × (found.1 ≡ set_or_null hash)
url_of_checked none hash h = cc
url_of_checked (some url) hash {found} h =
    elim (Bool-cases (starts_with_any url expected_domains)) [
      | inl under ↦
          let q = ok_injective (rw under at h) in
          (
            ap (λ p. some p.0) q,
            subst (λ p. starts_with_any p.0 expected_domains ≡ true) q under,
            sym (ap (λ p. p.1) q),
          )
      | inr foreign ↦ let refused = rw foreign at h in cc
    ]

found_in_files :
    (extname : Text → Text) (version system rid : Text) (files : List InstallerFile)
    {found : Text × Option Text}
    → find_installer extname version system rid files ≡ ok found
    → (file : InstallerFile) × Memᴰ file files × Passes extname version system rid found file
unfolding find_installer url_and_hash
found_in_files extname version system rid [] h = cc
found_in_files extname version system rid (file ∷ files) {found} h =
    elim (Bool-cases (is_text file.rid rid)) [
      | inl same ↦
          elim (tested (installer_matches_desired_file_extension extname version file system) _
            (rw same at h)) [
              | inl (e, g) ↦
                  let (url, domain, hash) = url_of_checked file.url file.hash g in
                  (file, head refl, (is_text-eq file.rid rid same, e, url, domain, hash))
              | inr (e, g) ↦
                  let (f, m, a) = found_in_files extname version system rid files g in
                  (f, tail m, a)
            ]
      | inr other ↦
          let (f, m, a) = found_in_files extname version system rid files (rw other at h) in
          (f, tail m, a)
    ]

items_of-defined {ℓ} :
    {A : Type ℓ} (o : Option (List A)) {xs : List A} → defined o ≡ ok xs → items_of o ≡ xs
items_of-defined none h = cc
items_of-defined (some ys) h = ok_injective h

found_in_sdks :
    (extname : Text → Text) (version system rid : Text) (sdks : List Sdk)
    {found : Text × Option Text}
    → find_sdk extname version system rid sdks ≡ ok found
    → (sdk : Sdk) × (file : InstallerFile) × Memᴰ sdk sdks
      × (sdk.version ≡ some version)
      × Memᴰ file (items_of sdk.files)
      × Passes extname version system rid found file
unfolding find_sdk
found_in_sdks extname version system rid [] h = cc
found_in_sdks extname version system rid (sdk ∷ sdks) {found} h =
    elim (Bool-cases (is_text sdk.version version)) [
      | inl same ↦
          let (files, e, g) = >>=-eq-ok (defined sdk.files) _ (rw same at h) in
          let (file, m, a) = found_in_files extname version system rid files g in
          (
            sdk,
            file,
            head refl,
            is_text-eq sdk.version version same,
            subst (λ fs. Memᴰ file fs) (sym (items_of-defined sdk.files e)) m,
            a,
          )
      | inr other ↦
          let (s, f, m, v, n, a) = found_in_sdks extname version system rid sdks (rw other at h) in
          (s, f, tail m, v, n, a)
    ]

specified-ok : (o : Option Text) {t : Text} → specified o ≡ ok t → (o ≡ some t) × (t ≢ [])
specified-ok none h = cc
specified-ok (some []) h = cc
specified-ok (some (x ∷ xs)) h = ground arith

not_empty-ok : (xs : List Release) {ys : List Release} → not_empty xs ≡ ok ys → xs ≡ ys
not_empty-ok [] h = cc
not_empty-ok (x ∷ xs) h = ok_injective h

pub defined-ok {ℓ} : {A : Type ℓ} (o : Option A) {a : A} → defined o ≡ ok a → o ≡ some a
defined-ok none h = cc
defined-ok (some a) h = ap some (ok_injective h)

past_guard {ℓ} :
    {A : Type ℓ} (b : Bool) (e : Error) {m : Result A} {a : A}
    → (if b then throw e else m) ≡ ok a
    → (b ≡ false) × (m ≡ ok a)
past_guard true e h = cc
past_guard false e h = (refl, h)

Passes-Answers :
    (extname : Text → Text) (version platform arch : Text) (found : Text × Option Text)
    (file : InstallerFile)
    → (node_os_to_dotnet_os platform === codes "auto") ≡ false
    → (node_arch_to_dotnet_arch arch === codes "auto") ≡ false
    → Passes extname version (node_os_to_dotnet_os platform) (desired_rid platform arch) found file
    → Answers extname platform arch found file
Passes-Answers extname version platform arch found file os machine
      (rid, matching, url, start, hash) =
    let (name, (named, ending)) =
      named-IsEnding extname version file (node_os_to_dotnet_os platform) matching in
    (
      node_os_to_dotnet_os platform,
      node_arch_to_dotnet_arch arch,
      name,
      known-IsSystem platform os,
      known-IsMachine arch machine,
      rid,
      named,
      ending,
      url,
      expected_start (found.0) start,
      subst (IsHash file.hash) (sym hash) (set_or_null-IsHash file.hash),
    )

-- A search that finds an installer has passed the tests of the source.
pub installer_found :
    (extname : Text → Text) (platform arch : Text) (fetch : Text → Result (Option ReleaseIndex))
    (version : Option Text) (index_url : Text) (found : Text × Option Text)
    → find_correct_installer_url_and_hash extname platform arch fetch version index_url ≡ ok found
    → (v : Text) × (index : ReleaseIndex) × (sdk : Sdk) × (file : InstallerFile) × (version
        ≡ some v)
      × (v ≢ [])
      × (fetch index_url ≡ ok (some index))
      × Memᴰ sdk (all_sdks (items_of index.releases))
      × (sdk.version ≡ some v)
      × Memᴰ file (items_of sdk.files)
      × ((node_os_to_dotnet_os platform === codes "auto") ≡ false)
      × ((node_arch_to_dotnet_arch arch === codes "auto") ≡ false)
      × Passes extname v (node_os_to_dotnet_os platform) (desired_rid platform arch) found file
unfolding find_correct_installer_url_and_hash fetch_json_object_from_url
installer_found extname platform arch fetch version index_url found h =
    let (v, e, g) = >>=-eq-ok (specified version) _ h in
    let (is, ne) = specified-ok version e in
    let (os, past_os) = past_guard (node_os_to_dotnet_os platform === codes "auto") _ g in
    let (machine, past_arch) =
      past_guard (node_arch_to_dotnet_arch arch === codes "auto") _ past_os in
    let (index, fetched, g') = >>=-eq-ok (fetch_json_object_from_url fetch index_url) _ past_arch in
    let (releases, er, g'') = >>=-eq-ok (releases_of index) _ g' in
    let (whole, ef, ew) = >>=-eq-ok (fetch index_url) _ fetched in
    let (sdk, file, m, ev, n, a) =
      found_in_sdks extname v (node_os_to_dotnet_os platform) (desired_rid platform arch)
        (all_sdks releases) g'' in
    (
      v,
      index,
      sdk,
      file,
      is,
      ne,
      ef ∙ ap ok (defined-ok whole ew),
      subst (λ rs. Memᴰ sdk (all_sdks rs)) (sym (not_empty-ok (items_of index.releases) er)) m,
      ev,
      n,
      os,
      machine,
      a,
    )

-- When the resolver finds an installer for a specific version, that version is not empty, the machine
-- is one of Windows, macOS or Linux with a known architecture, and the index that it fetched has an
-- SDK of that version with a file that is for this system and architecture, whose name ends in the
-- installer type of the system, and that has the hash given and the url given, which begins with one
-- of four texts: `https://download.visualstudio.microsoft.com/`,
-- `https://builds.dotnet.microsoft.com/`, `https://ci.dot.net` (without a slash) or
-- `https://dotnetcli.blob.core.windows.net/`.
pub installer_in_index :
    (extname : Text → Text) (platform arch : Text) (fetch : Text → Result (Option ReleaseIndex))
    (version : Option Text) (index_url : Text) (found : Text × Option Text)
    → find_correct_installer_url_and_hash extname platform arch fetch version index_url ≡ ok found
    → (v : Text) × (index : ReleaseIndex) × (sdk : Sdk) × (file : InstallerFile) × (version
        ≡ some v)
      × (v ≢ [])
      × (fetch index_url ≡ ok (some index))
      × Memᴰ sdk (all_sdks (items_of index.releases))
      × (sdk.version ≡ some v)
      × Memᴰ file (items_of sdk.files)
      × Answers extname platform arch found file
installer_in_index extname platform arch fetch version index_url found h =
    let (v, index, sdk, file, is, ne, fetched, ms, ev, mf, os, machine, passes) =
      installer_found extname platform arch fetch version index_url found h in
    (
      v,
      index,
      sdk,
      file,
      is,
      ne,
      fetched,
      ms,
      ev,
      mf,
      Passes-Answers extname v platform arch found file os machine passes,
    )
