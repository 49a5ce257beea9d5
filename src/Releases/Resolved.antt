-- ===== src/Releases/Resolved.antt =====
-- VersionResolver.ts `getFullVersion`: the version that a request resolves to is one of the index.
use vscode_dotnet_runtime.Prelude.{
  ◌≡◌, refl, sym, ◌∙◌, subst, ap, Bool, true, ◌||◌, not, Bool-cases, inl, inr, ◌⊎◌, some, List, [],
  ◌∷◌, keep, ok, >>=-eq-ok, ok_injective,
}
use vscode_dotnet_runtime.Text.{Text, ◌===◌, ===_iff}
use vscode_dotnet_runtime.Version.{bad_version}
use vscode_dotnet_runtime.Install.{DotnetInstallMode, sdk, runtime, aspnetcore, same_mode}
use vscode_dotnet_runtime.Releases.{
  ReleaseEntry, DotnetVersion, value_or, is_listed, latest_of, listed_version, listed_versions,
  get_available_dotnet_versions, get_releases_info, validate_version_input, first_version,
  or_by_channel, matching, resolve_version, get_full_version,
}
use mathlib.Core.List.{Memᴰ}
use mathlib.Core.List.Memᴰ.{head, tail, cases_cons, not-nil}

-- The release in the index that a version of the list stands for.
abbrev pub IsFrom : Bool → List ReleaseEntry → DotnetVersion → Type 0
IsFrom get_sdk rs v =
    (r : ReleaseEntry) × Memᴰ r rs × (is_listed r ≡ true) × (v ≡ listed_version get_sdk r)

IsFrom-tail :
    (get_sdk : Bool) (r : ReleaseEntry) (rs : List ReleaseEntry) (v : DotnetVersion)
    → IsFrom get_sdk rs v
    → IsFrom get_sdk (r ∷ rs) v
IsFrom-tail get_sdk r rs v (x, member, listed, same) = (x, tail member, listed, same)

listed-IsFrom :
    (get_sdk : Bool) (rs : List ReleaseEntry) (v : DotnetVersion)
    → Memᴰ v (listed_versions get_sdk rs)
    → IsFrom get_sdk rs v
unfolding listed_versions
listed-IsFrom get_sdk [] v h = absurd (not-nil h)
listed-IsFrom get_sdk (r ∷ rs) v h = elim (Bool-cases (is_listed r)) [
  | inr unlisted ↦ IsFrom-tail get_sdk r rs v (listed-IsFrom get_sdk rs v (rw unlisted at h))
  | inl listed ↦ elim (cases_cons (rw listed at h)) [
    | inl here ↦ (r, head refl, listed, here)
    | inr there ↦ IsFrom-tail get_sdk r rs v (listed-IsFrom get_sdk rs v there)
  ]
]

keep-Memᴰ :
    {A : Type 0} (p : A → Bool) (xs : List A) (x : A)
    → Memᴰ x (keep p xs)
    → Memᴰ x xs × (p x ≡ true)
keep-Memᴰ p [] x h = absurd (not-nil h)
keep-Memᴰ p (y ∷ ys) x h = elim (Bool-cases (p y)) [
  | inr dropped ↦ let (m, e) = keep-Memᴰ p ys x (rw dropped at h) in (tail m, e)
  | inl kept ↦ elim (cases_cons (rw kept at h)) [
    | inl here ↦ (head here, ap p here ∙ kept)
    | inr there ↦ let (m, e) = keep-Memᴰ p ys x there in (tail m, e)
  ]
]

-- A version that the request matches.
abbrev IsMatch : Text → DotnetVersion → Type 0
IsMatch version v = (v.version ≡ version) ⊎ (v.channel_version ≡ version)

or_by_channel-Memᴰ :
    (xs ys : List DotnetVersion) (x : DotnetVersion)
    → Memᴰ x (or_by_channel xs ys)
    → Memᴰ x xs ⊎ Memᴰ x ys
or_by_channel-Memᴰ [] ys x h = inr h
or_by_channel-Memᴰ (z ∷ zs) ys x h = inl h

matching-Memᴰ :
    (version : Text) (releases : List DotnetVersion) (x : DotnetVersion)
    → Memᴰ x (matching version releases)
    → Memᴰ x releases × IsMatch version x
matching-Memᴰ version releases x h = elim (or_by_channel-Memᴰ _ _ x h) [
  | inl m ↦
      let (member, e) = keep-Memᴰ (λ v. v.version === version) releases x m in
      (member, inl ((===_iff _ _).0 e))
  | inr m ↦
      let (member, e) = keep-Memᴰ (λ v. v.channel_version === version) releases x m in
      (member, inr ((===_iff _ _).0 e))
]

first_version-Memᴰ :
    (xs : List DotnetVersion) (r : Text)
    → first_version xs ≡ ok r
    → (x : DotnetVersion) × Memᴰ x xs × (r ≡ x.version)
first_version-Memᴰ [] r e = cc
first_version-Memᴰ (x ∷ xs) r e = (x, head refl, sym (ok_injective e))

sdks_of_mode :
    (mode : DotnetInstallMode)
    → not (same_mode mode runtime || same_mode mode aspnetcore) ≡ same_mode mode sdk
sdks_of_mode sdk = refl
sdks_of_mode runtime = refl
sdks_of_mode aspnetcore = refl

-- The version that a request resolves to is the latest one, of the SDK or of the runtime by the mode,
-- of a release in the index whose type is "lts" or "sts", and the request is that version or the
-- channel of the release.
pub resolved_is_listed :
    (coerces : Text → Bool) (rs : List ReleaseEntry) (version : Text) (mode : DotnetInstallMode)
    (r : Text)
    → get_full_version coerces (some rs) version mode ≡ ok r
    → (release : ReleaseEntry) × Memᴰ release rs
      × (is_listed release ≡ true)
      × (r ≡ latest_of (same_mode mode sdk) release)
      × ((r ≡ version) ⊎ (value_or release.channel_version bad_version ≡ version))
unfolding get_full_version get_releases_info get_available_dotnet_versions resolve_version
    listed_version
resolved_is_listed coerces rs version mode r e =
    let vs = listed_versions (not (same_mode mode runtime || same_mode mode aspnetcore)) rs in
    let (_, _, chosen) = >>=-eq-ok (validate_version_input coerces version) _ e in
    let (x, is_first, is_version) = first_version-Memᴰ (matching version vs) r chosen in
    let (member, is_match) = matching-Memᴰ version vs x is_first in
    let (release, listed, is_type, same) =
      listed-IsFrom (not (same_mode mode runtime || same_mode mode aspnetcore)) rs x member in
    let is_latest =
      subst (λ b. x.version ≡ latest_of b release) (sdks_of_mode mode)
        (ap DotnetVersion.version same) in
    (
      release,
      listed,
      is_type,
      is_version ∙ is_latest,
      elim is_match [
        | inl is_request ↦ inl (is_version ∙ is_request)
        | inr is_channel ↦ inr (sym (ap DotnetVersion.channel_version same) ∙ is_channel)
      ],
    )

Memᴰ-keep :
    {A : Type 0} (p : A → Bool) (xs : List A) (x : A) → Memᴰ x xs → p x ≡ true → Memᴰ x (keep p xs)
Memᴰ-keep p [] x h e = absurd (not-nil h)
Memᴰ-keep p (y ∷ ys) x h e = elim (Bool-cases (p y)) [
  | inr dropped ↦ elim (cases_cons h) [
    | inl here ↦ cc
    | inr there ↦ rw dropped (Memᴰ-keep p ys x there e)
  ]
  | inl kept ↦ elim (cases_cons h) [
    | inl here ↦ rw kept (head here)
    | inr there ↦ rw kept (tail (Memᴰ-keep p ys x there e))
  ]
]

Memᴰ-listed :
    (get_sdk : Bool) (rs : List ReleaseEntry) (r : ReleaseEntry)
    → Memᴰ r rs
    → is_listed r ≡ true
    → Memᴰ (listed_version get_sdk r) (listed_versions get_sdk rs)
unfolding listed_versions
Memᴰ-listed get_sdk [] r h e = absurd (not-nil h)
Memᴰ-listed get_sdk (y ∷ ys) r h e = elim (Bool-cases (is_listed y)) [
  | inr unlisted ↦ elim (cases_cons h) [
    | inl here ↦ cc
    | inr there ↦ rw unlisted (Memᴰ-listed get_sdk ys r there e)
  ]
  | inl listed ↦ elim (cases_cons h) [
    | inl here ↦ rw listed (head (ap (listed_version get_sdk) here))
    | inr there ↦ rw listed (tail (Memᴰ-listed get_sdk ys r there e))
  ]
]

-- Versions that all are the requested one.
first_of_same :
    (version : Text) (xs ys : List DotnetVersion) (x : DotnetVersion)
    → ((v : DotnetVersion) → Memᴰ v xs → v.version ≡ version)
    → Memᴰ x xs
    → first_version (or_by_channel xs ys) ≡ ok version
first_of_same version [] ys x h m = absurd (not-nil m)
first_of_same version (z ∷ zs) ys x h m = ap ok (h z (head refl))

-- A version that a release of the index has as its latest one, of the SDK or of the runtime by the
-- mode, resolves to itself, where its text can be read as a version and has two or three parts and
-- the type of the release is "lts" or "sts".
pub listed_version_resolves :
    (coerces : Text → Bool) (rs : List ReleaseEntry) (release : ReleaseEntry)
    (mode : DotnetInstallMode)
    → validate_version_input coerces (latest_of (same_mode mode sdk) release) ≡ ok tt
    → Memᴰ release rs
    → is_listed release ≡ true
    → get_full_version coerces (some rs) (latest_of (same_mode mode sdk) release) mode
      ≡ ok (latest_of (same_mode mode sdk) release)
unfolding get_full_version get_releases_info get_available_dotnet_versions resolve_version
    listed_version
listed_version_resolves coerces rs release mode valid member listed =
    let get_sdk = not (same_mode mode runtime || same_mode mode aspnetcore) in
    let version = latest_of (same_mode mode sdk) release in
    let vs = listed_versions get_sdk rs in
    let chosen =
      first_of_same version (keep (λ v. v.version === version) vs)
        (keep (λ v. v.channel_version === version) vs) (listed_version get_sdk release)
        (λ v m. (===_iff _ _).0 (keep-Memᴰ (λ v. v.version === version) vs v m).1)
        (Memᴰ-keep (λ v. v.version === version) vs _ (Memᴰ-listed get_sdk rs release member listed)
          ((===_iff _ _).1 (ap (λ b. latest_of b release) (sdks_of_mode mode)))) in
    rw valid chosen
