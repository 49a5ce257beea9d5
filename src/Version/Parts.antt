-- ===== src/Version/Parts.antt =====
-- Versions put together from their parts, and what VersionUtilities.ts reads back from them.
use vscode_dotnet_runtime.Prelude.{
  ℕ, ◌<◌, ◌≡◌, refl, ap, ◌∙◌, ◌≢◌, Bool, true, false, some, [], ◌∷◌, ◌++◌, arith, get_elem?, get_or,
  ok,
}
use vscode_dotnet_runtime.Text.{Text, split}
use vscode_dotnet_runtime.Text.Split.{
  Lacks, split_of_Lacks, split-append, split-append_first, split-ne-nil,
}
use vscode_dotnet_runtime.Text.Number.{is_nan}
use vscode_dotnet_runtime.Text.Number.Digits.{Digits, to_number_of_Digits}
use vscode_dotnet_runtime.Version.{
  parts, is_number, get_major_minor, get_major_minor_from_valid_version, get_major, get_minor,
  get_feature_band_from_version, get_sdk_patch_version_string,
  get_sdk_complete_band_and_patch_version_string, get_runtime_patch_version_string,
}

-- `major.minor` and `major.minor.third`.
abbrev pub two : Text → Text → Text
two major minor = major ++ b'.' ∷ minor

abbrev pub three : Text → Text → Text → Text
three major minor third = major ++ b'.' ∷ (minor ++ b'.' ∷ third)

-- A decimal number, with one digit at least.
abbrev pub IsDecimal : Text → Type 0
IsDecimal s = (s ≢ []) × Digits s

pub Lacks-of_Digits : (c : ℕ) (s : Text) → c < b'0' → Digits s → Lacks c s
Lacks-of_Digits c [] lt h = tt
Lacks-of_Digits c (x ∷ xs) lt h = (ground arith, Lacks-of_Digits c xs lt h.1)

pub is_number_of_IsDecimal : (s : Text) → IsDecimal s → is_number s ≡ true
unfolding is_number is_nan
is_number_of_IsDecimal [] h = absurd (h.0 refl)
is_number_of_IsDecimal (x ∷ xs) h = ground (arith, to_number_of_Digits (x ∷ xs) h.0 h.1)

module _ (major minor : Text) (a : Lacks b'.' major) (b : Lacks b'.' minor) where
  pub parts-two : parts (two major minor) ≡ major ∷ minor ∷ []
  parts-two = rw (split-append b'.' major minor a) (rw (split_of_Lacks b'.' minor b))

  pub get_major_minor-two : get_major_minor (two major minor) ≡ ok (two major minor)
  unfolding get_major_minor get_major_minor_from_valid_version
  get_major_minor-two = rw parts-two

  -- The third part of `major.minor.` followed by any text.
  pub third-three :
      (tail : Text)
      → get_elem? (parts (three major minor tail)) 2 ≡ some (get_or (split b'.' tail) 0 [])
  third-three tail =
      rw (split-append b'.' major (minor ++ b'.' ∷ tail) a)
        (rw (split-append b'.' minor tail b) (ground (arith, split-ne-nil b'.' tail)))

  get_major-of_two : (v : Text) → get_major_minor v ≡ ok (two major minor) → get_major v ≡ ok major
  unfolding get_major
  get_major-of_two v e = rw e (rw parts-two)

  get_minor-of_two : (v : Text) → get_major_minor v ≡ ok (two major minor) → get_minor v ≡ ok minor
  unfolding get_minor
  get_minor-of_two v e = rw e (rw parts-two)

  module _ (third : Text) (c : Lacks b'.' third) where
    pub parts-three : parts (three major minor third) ≡ major ∷ minor ∷ third ∷ []
    parts-three =
        rw (split-append b'.' major (minor ++ b'.' ∷ third) a)
          (rw (split-append b'.' minor third b) (rw (split_of_Lacks b'.' third c)))

    pub get_major_minor-three : get_major_minor (three major minor third) ≡ ok (two major minor)
    unfolding get_major_minor get_major_minor_from_valid_version
    get_major_minor-three = rw parts-three

-- The major and the minor of `major.minor.third`.
pub major_minor_of_three :
    (major minor third : Text)
    → Digits major
    → Digits minor
    → Digits third
    → let version = three major minor third in
      (get_major version ≡ ok major) × (get_minor version ≡ ok minor)
major_minor_of_three major minor third a b c =
    let la = Lacks-of_Digits b'.' major (omega arith) a in
    let lb = Lacks-of_Digits b'.' minor (omega arith) b in
    let lc = Lacks-of_Digits b'.' third (omega arith) c in
    let mm = get_major_minor-three major minor la lb third lc in
    (get_major-of_two major minor la lb _ mm, get_minor-of_two major minor la lb _ mm)

module _ (version patch : Text) (band : ℕ) (d : IsDecimal patch)
    (third : get_elem? (parts version) 2 ≡ some (band ∷ patch)) where
  sdk_patch_of_third : (strict : Bool) → get_sdk_patch_version_string version strict ≡ ok patch
  unfolding get_sdk_patch_version_string
  sdk_patch_of_third strict = ground (
    arith,
    split_of_Lacks b'-' patch (Lacks-of_Digits b'-' patch (omega arith) d.1),
    is_number_of_IsDecimal patch d,
  )

  complete_of_third : get_sdk_complete_band_and_patch_version_string version ≡ some (band ∷ patch)
  unfolding get_sdk_complete_band_and_patch_version_string
  complete_of_third = ground (arith, sdk_patch_of_third false)

-- For an SDK version `major.minor.bpp` of decimal digits, with one digit of band and a patch, the
-- accessors give back the major, the minor, the band and the patch that it was put together from.
pub sdk_version_parts :
    (major minor : Text) (band : ℕ) (patch : Text) (strict : Bool)
    → Digits major
    → IsDecimal minor
    → Digits (band ∷ [])
    → IsDecimal patch
    → let version = three major minor (band ∷ patch) in
      (get_major version ≡ ok major)
      × (get_minor version ≡ ok minor)
      × (get_feature_band_from_version version strict ≡ ok (band ∷ []))
      × (get_sdk_patch_version_string version strict ≡ ok patch)
      × (get_sdk_complete_band_and_patch_version_string version ≡ some (band ∷ patch))
unfolding get_feature_band_from_version
sdk_version_parts major minor band patch strict a b c d =
    let la = Lacks-of_Digits b'.' major (omega arith) a in
    let lb = Lacks-of_Digits b'.' minor (omega arith) b.1 in
    let lc = Lacks-of_Digits b'.' (band ∷ patch) (omega arith) (c.0, d.1) in
    let whole = parts-three major minor la lb (band ∷ patch) lc in
    let mm = get_major_minor-three major minor la lb (band ∷ patch) lc in
    let third = ap (λ ps. get_elem? ps 2) whole in
    (
      get_major-of_two major minor la lb _ mm,
      get_minor-of_two major minor la lb _ mm,
      rw (whole, get_feature_band_from_version) refl,
      sdk_patch_of_third (three major minor (band ∷ patch)) patch band d third strict,
      complete_of_third (three major minor (band ∷ patch)) patch band d third,
    )

first_of_dash :
    (patch suffix : Text) → Digits patch → get_or (split b'-' (patch ++ b'-' ∷ suffix)) 0 [] ≡ patch
first_of_dash patch suffix h =
    rw (split-append b'-' patch suffix (Lacks-of_Digits b'-' patch (omega arith) h))

dotted_suffix :
    (patch suffix : Text)
    → Digits patch
    → get_or (split b'.' (patch ++ b'-' ∷ suffix)) 0 []
      ≡ patch ++ b'-' ∷ get_or (split b'.' suffix) 0 []
dotted_suffix patch suffix h =
    split-append_first b'.' patch (b'-' ∷ suffix) (Lacks-of_Digits b'.' patch (omega arith) h)
    ∙ ap (λ t. patch ++ t) (split-append_first b'.' (b'-' ∷ []) suffix (refl, tt))

runtime_patch_of_third :
    (version third patch : Text)
    → IsDecimal patch
    → get_elem? (parts version) 2 ≡ some third
    → get_or (split b'-' third) 0 [] ≡ patch
    → get_runtime_patch_version_string version ≡ ok (some patch)
unfolding get_runtime_patch_version_string
runtime_patch_of_third version third [] h e f = absurd (h.0 refl)
runtime_patch_of_third version third (x ∷ xs) h e f =
    ground (arith, is_number_of_IsDecimal (x ∷ xs) h)

-- For a runtime version `major.minor.patch`, with a suffix after a dash or without, of which the
-- suffix may hold further dots, the patch is what stands before the dash.
pub runtime_version_patch :
    (major minor patch suffix : Text)
    → Digits major
    → Digits minor
    → IsDecimal patch
    → (get_runtime_patch_version_string (three major minor patch) ≡ ok (some patch))
      × (get_runtime_patch_version_string (three major minor (patch ++ b'-' ∷ suffix))
          ≡ ok (some patch))
runtime_version_patch major minor patch suffix a b c =
    let la = Lacks-of_Digits b'.' major (omega arith) a in
    let lb = Lacks-of_Digits b'.' minor (omega arith) b in
    (
      runtime_patch_of_third (three major minor patch) patch patch c
          (rw (parts-three major minor la lb patch (Lacks-of_Digits b'.' patch (omega arith) c.1)))
          (rw (split_of_Lacks b'-' patch (Lacks-of_Digits b'-' patch (omega arith) c.1))),
      runtime_patch_of_third (three major minor (patch ++ b'-' ∷ suffix))
          (patch ++ b'-' ∷ get_or (split b'.' suffix) 0 []) patch c
          (third-three major minor la lb (patch ++ b'-' ∷ suffix)
            ∙ ap some (dotted_suffix patch suffix c.1))
          (first_of_dash patch (get_or (split b'.' suffix) 0 []) c.1),
    )
