-- ===== src/Condition/Accepted.antt =====
-- DotnetConditionValidator.ts `dotnetMeetsRequirement` and `filterValidPaths` as a whole: what is
-- known of an executable, or of a list of installs, that was accepted.
use mathlib.Core.List.{Memᴰ}
use mathlib.Core.List.Memᴰ.{head, tail}
use vscode_dotnet_runtime.Prelude.{
  ◌≡◌, ◌⊎◌, ℕ, ◌==◌, ap, Bool-cases, Option, none, some, refl, sym, subst, ◌∙◌, inl, inr,
  Result-cases, Bool, true, false, ◌&&◌, List, [], ◌∷◌, arith, Result, ok, if◌then◌else◌, All,
  >>=-eq-ok, ok_injective,
}
use vscode_dotnet_runtime.Text.{Text, includes_code}
use vscode_dotnet_runtime.Text.Split.{Lacks}
use vscode_dotnet_runtime.Version.{is_preview_version}
use vscode_dotnet_runtime.Install.{
  DotnetInstallMode, sdk, runtime, aspnetcore, Architecture, same_mode,
}
use vscode_dotnet_runtime.Condition.{
  FindPathContext, DotnetListInfo, InstallRecordWithPath, some_of, keep_of, install_meets,
  string_version_meets_requirement, string_architecture_meets_requirement, allow_preview,
  mode_meets, architecture_of_first, or_runtime, dotnet_meets_requirement, filter_valid_paths,
}
use vscode_dotnet_runtime.Condition.Fits.{FitsArchitecture, IsReported, architecture-Fits}

some_of-true {ℓ} :
    {A : Type ℓ} (f : A → Result Bool) (xs : List A)
    → some_of f xs ≡ ok true
    → (x : A) × Memᴰ x xs × (f x ≡ ok true)
some_of-true f [] h = cc
some_of-true f (x ∷ xs) h = elim (Result-cases (f x)) [
  | inl (true, e) ↦ (x, head refl, e)
  | inl (false, e) ↦ let (y, m, fy) = some_of-true f xs (sym (rw e refl) ∙ h) in (y, tail m, fy)
  | inr (err, e) ↦ cc
]

All-if {ℓ} :
    {A : Type ℓ} (f : A → Result Bool) (x : A) (b : Bool) (xs : List A)
    → f x ≡ ok b
    → All (λ y. f y ≡ ok true) xs
    → All (λ y. f y ≡ ok true) (if b then x ∷ xs else xs)
All-if f x true xs e all = (e, all)
All-if f x false xs e all = all

keep_of_kept {ℓ} :
    {A : Type ℓ} (f : A → Result Bool) (xs : List A) {kept : List A}
    → keep_of f xs ≡ ok kept
    → All (λ x. f x ≡ ok true) kept
keep_of_kept f [] h = subst (All (λ x. f x ≡ ok true)) (ok_injective h) tt
keep_of_kept f (x ∷ xs) h =
    let (b, e, g) = >>=-eq-ok (f x) _ h in
    let (more, e', g') = >>=-eq-ok (keep_of f xs) _ g in
    subst (All (λ y. f y ≡ ok true)) (ok_injective g') (All-if f x b more e (keep_of_kept f xs e'))

install_meets_parts :
    (architecture : Text) (context : FindPathContext) (install : DotnetListInfo)
    → install_meets architecture context install ≡ ok true
    → (mode_meets install.mode context.mode ≡ true)
      × (string_architecture_meets_requirement architecture context.architecture ≡ true)
      × (string_version_meets_requirement install.version context.version context ≡ ok true)
      × (allow_preview install.version context ≡ true)
unfolding install_meets
install_meets_parts architecture context install h = ground (
  arith,
  >>=-eq-ok (string_version_meets_requirement install.version context.version context)
      (λ b. ok (b && allow_preview install.version context)) {b = true},
)

first_install :
    (xs : List DotnetListInfo) (default : Text) (install : DotnetListInfo)
    → Memᴰ install xs
    → (first : DotnetListInfo) × ((rest : List DotnetListInfo) × (xs ≡ first ∷ rest)
        × IsReported first default (architecture_of_first xs default))
first_install [] default install m = elim m [ ]
first_install (x ∷ xs) default install m = (x, (xs, refl, reported x.architecture refl))
  where
    reported :
        (o : Option Text)
        → x.architecture ≡ o
        → IsReported x default (architecture_of_first (x ∷ xs) default)
    reported none e = inr (e, rw e refl)
    reported (some t) e = inl (e ∙ ap some (rw e refl))

-- Of the mode that was asked for, whatever its own mode if that was an SDK.
abbrev pub HasMode : DotnetInstallMode → DotnetListInfo → Type 0
HasMode mode install = (mode ≡ sdk) ⊎ (install.mode ≡ mode)

mode_meets-HasMode :
    (requested : Option DotnetInstallMode) (install : DotnetListInfo)
    → mode_meets install.mode requested ≡ true
    → (mode : DotnetInstallMode) × ((requested ≡ some mode) × HasMode mode install)
mode_meets-HasMode none install h = cc
mode_meets-HasMode (some sdk) install h = (sdk, (refl, inl refl))
mode_meets-HasMode (some runtime) install h = (runtime, (refl, inr (is install.mode h)))
  where
    is : (m : DotnetInstallMode) → same_mode m runtime ≡ true → m ≡ runtime
    is sdk h = cc
    is runtime h = refl
    is aspnetcore h = cc
mode_meets-HasMode (some aspnetcore) install h = (aspnetcore, (refl, inr (is install.mode h)))
  where
    is : (m : DotnetInstallMode) → same_mode m aspnetcore ≡ true → m ≡ aspnetcore
    is sdk h = cc
    is runtime h = cc
    is aspnetcore h = refl

excluded-Lacks : (version : Text) (c : ℕ) → includes_code version c ≡ false → Lacks c version
unfolding includes_code
excluded-Lacks [] c h = tt
excluded-Lacks (x ∷ xs) c h = elim (Bool-cases (x == c)) [
  | inl same ↦ let wrong = rw same at h in cc
  | inr other ↦ (other, excluded-Lacks xs c (rw other at h))
]

preview_allowed :
    (version : Text) (context : FindPathContext)
    → allow_preview version context ≡ true
    → (context.reject_previews ≡ false) ⊎ Lacks b'-' version
unfolding allow_preview is_preview_version
preview_allowed version context h = elim (Bool-cases context.reject_previews) [
  | inr accepts ↦ inl accepts
  | inl rejects ↦ inr (excluded-Lacks version b'-' (ground (arith)))
]

-- An executable that meets a requirement is one for which `dotnet` lists, for the mode and the
-- architecture asked for, an install that meets it itself: the mode is given, and is that of the
-- install unless an SDK was asked for; the architecture of the first install listed, by default the
-- machine's, is the requested one of x64, x86, arm and arm64, or one of the two is left open, or it is
-- none of these four and `auto` was requested; the version meets the version requirement; and it has
-- no `-` in it if previews are rejected.
pub accepted_has_install :
    (installs : DotnetInstallMode → Architecture → List DotnetListInfo) (default : Text)
    (context : FindPathContext)
    → dotnet_meets_requirement installs default context ≡ ok true
    → (mode : DotnetInstallMode) × (install : DotnetListInfo) × (first : DotnetListInfo)
      × (rest : List DotnetListInfo) × (output : Text) × (context.mode ≡ some mode)
      × (installs mode context.architecture ≡ first ∷ rest)
      × Memᴰ install (first ∷ rest)
      × HasMode mode install
      × IsReported first default output
      × FitsArchitecture output context.architecture
      × (string_version_meets_requirement install.version context.version context ≡ ok true)
      × ((context.reject_previews ≡ false) ⊎ Lacks b'-' install.version)
unfolding dotnet_meets_requirement
accepted_has_install installs default context h =
    let available = installs (or_runtime context.mode) context.architecture in
    let architecture = architecture_of_first available default in
    let (install, member, meets) = some_of-true (install_meets architecture context) available h in
    let (of_mode, arch, version, preview) =
      install_meets_parts architecture context install meets in
    let (mode, (given, has_mode)) = mode_meets-HasMode context.mode install of_mode in
    let (first, (rest, listed, reported)) = first_install available default install member in
    (
      mode,
      install,
      first,
      rest,
      architecture,
      given,
      subst (λ o. installs (or_runtime o) context.architecture ≡ first ∷ rest) given listed,
      subst (Memᴰ install) listed member,
      has_mode,
      reported,
      architecture-Fits architecture context.architecture arch,
      version,
      preview_allowed install.version context preview,
    )

-- When `filterValidPaths` returns, each install that it kept meets the version requirement.
pub filtered_meet :
    (records : List InstallRecordWithPath) (context : FindPathContext)
    {kept : List InstallRecordWithPath}
    → filter_valid_paths records context ≡ ok kept
    → All
        (λ r.
          string_version_meets_requirement r.dotnet_install.version context.version context
          ≡ ok true)
        kept
unfolding filter_valid_paths
filtered_meet records context h = keep_of_kept _ records h
