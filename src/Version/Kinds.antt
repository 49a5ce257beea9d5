-- ===== src/Version/Kinds.antt =====
-- The three kinds of version requests, and the band that Linux requests are normalized to.
use vscode_dotnet_runtime.Prelude.{
  ◌≤◌, ◌≡◌, true, false, Bool-cases, inl, inr, [], ◌∷◌, ◌++◌, arith, length, every, get_or,
  Result-cases, ok,
}
use vscode_dotnet_runtime.Text.{Text, codes, count}
use vscode_dotnet_runtime.Text.Split.{length-split, count-append}
use vscode_dotnet_runtime.Version.{
  parts, is_number, get_major_minor, get_sdk_patch_version_string,
  is_non_specific_feature_banded_version, is_fully_specified_version,
  is_non_specific_major_or_major_minor_version, convert_to_linux_package_manager_supported_version,
}

-- A request is of one kind at most: a major or major.minor is no banded version and not fully
-- specified, and a banded version is not fully specified.
pub kinds_exclusive :
    (v : Text)
    → ¬ (
        (is_non_specific_major_or_major_minor_version v ≡ true)
        × (is_non_specific_feature_banded_version v ≡ true))
      × ¬ (
          (is_non_specific_major_or_major_minor_version v ≡ true)
          × (is_fully_specified_version v ≡ ok true))
      × ¬ (
          (is_non_specific_feature_banded_version v ≡ true)
          × (is_fully_specified_version v ≡ ok true))
unfolding is_non_specific_major_or_major_minor_version is_non_specific_feature_banded_version
    is_fully_specified_version
kinds_exclusive v = (λ h. ground arith, λ h. ground arith, λ h. ground arith)

-- A version that counts as fully specified has three parts, all of them numbers, ten code units at
-- most, and a patch of two code units behind the band.
pub fully_specified_sound :
    (v : Text)
    → is_fully_specified_version v ≡ ok true
    → (length (parts v) ≡ 3)
      × (every is_number (parts v) ≡ true)
      × (length v ≤ 10)
      × ((patch : Text) × (get_sdk_patch_version_string v true ≡ ok patch) × (length patch ≡ 2))
unfolding is_fully_specified_version
fully_specified_sound v h = elim (Result-cases (get_sdk_patch_version_string v true)) [
  | inl (patch, e) ↦ (ground arith, ground arith, ground arith, (patch, e, ground arith))
  | inr (e, failed) ↦ absurd (ground (arith, kinds_exclusive v))
]

count_cons : (s t : Text) → 1 ≤ count b'.' (s ++ b'.' ∷ t)
unfolding count
count_cons s t = omega (arith, count-append b'.' s (b'.' ∷ t))

major_minor_dotted : (v m : Text) → get_major_minor v ≡ ok m → 1 ≤ count b'.' m
unfolding get_major_minor
major_minor_dotted v m h =
    ground
      (arith, count_cons v (b'0' ∷ []), count_cons (get_or (parts v) 0 []) (get_or (parts v) 1 []))

banded_not_major :
    (m : Text)
    → 1 ≤ count b'.' m
    → is_non_specific_major_or_major_minor_version (m ++ codes ".1xx") ≡ false
unfolding is_non_specific_major_or_major_minor_version count
banded_not_major m h =
    ground (arith, length-split b'.' (m ++ codes ".1xx"), count-append b'.' m (codes ".1xx"))

-- Normalizing for a Linux package manager a second time changes nothing.
pub convert_idempotent :
    (v w : Text)
    → convert_to_linux_package_manager_supported_version v ≡ ok w
    → convert_to_linux_package_manager_supported_version w ≡ ok w
unfolding convert_to_linux_package_manager_supported_version
convert_idempotent v w h = elim (Bool-cases (is_non_specific_major_or_major_minor_version v)) [
  | inl short ↦ elim (Result-cases (get_major_minor v)) [
    | inl (m, e) ↦ ground (arith, banded_not_major m (major_minor_dotted v m e))
    | inr (x, e) ↦ ground arith
  ]
  | inr long ↦ ground arith
]
