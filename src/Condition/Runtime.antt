-- ===== src/Condition/Runtime.antt =====
-- DotnetConditionValidator.ts `stringVersionMeetsRequirement` on runtime versions
-- `major.minor.patch` of decimal digits, against the order of the three numbers.
use vscode_dotnet_runtime.Prelude.{
  ◌≡◌, refl, ap, ◌∙◌, ◌≢◌, true, false, Option, none, some, [], ◌∷◌, ok,
}
use vscode_dotnet_runtime.Text.{Text}
use vscode_dotnet_runtime.Text.Number.{to_number, of_ℕ}
use vscode_dotnet_runtime.Text.Number.Digits.{value_from, to_number_of_Digits}
use vscode_dotnet_runtime.Version.Parts.{
  IsDecimal, three, runtime_version_patch, major_minor_of_three,
}
use vscode_dotnet_runtime.Install.{DotnetInstallMode}
use vscode_dotnet_runtime.Condition.{
  FindPathContext, is_sdk, number_or_null, get_feature_band, get_patch_or_feature_band_with_patch,
  string_version_meets_requirement,
}
use vscode_dotnet_runtime.Condition.Decision.{
  Numbers, same_minor, accepts, decision, decision-accepts, decision_of_zero,
}

-- A version `major.minor.patch` of decimal digits.
pub record Runtime : Type 0 where
  pub major : Text
  pub minor : Text
  pub patch : Text

abbrev pub text_of : Runtime → Text
text_of v = three v.major v.minor v.patch

abbrev pub numbers_of : Runtime → Numbers
numbers_of v = record {
  major = value_from 0 v.major;
  minor = value_from 0 v.minor;
  patch = value_from 0 v.patch;
}

abbrev pub IsRuntime : Runtime → Type 0
IsRuntime v = IsDecimal v.major × IsDecimal v.minor × IsDecimal v.patch

number_of_part : (s : Text) → IsDecimal s → to_number s ≡ of_ℕ (value_from 0 s)
number_of_part s d = to_number_of_Digits s d.0 d.1

number_or_null_of_part :
    (s : Text) → IsDecimal s → number_or_null (some s) ≡ some (of_ℕ (value_from 0 s))
number_or_null_of_part [] d = absurd (d.0 refl)
number_or_null_of_part (x ∷ xs) d = ap some (number_of_part (x ∷ xs) d)

patch_of_runtime :
    (mode : Option DotnetInstallMode) (v : Runtime)
    → IsRuntime v
    → is_sdk mode ≡ false
    → get_patch_or_feature_band_with_patch mode (text_of v) ≡ ok (some (of_ℕ (numbers_of v).patch))
unfolding get_patch_or_feature_band_with_patch
patch_of_runtime mode v (a, b, c) e = rw e (
    rw (runtime_version_patch v.major v.minor v.patch [] a.1 b.1 c).0
      (ap ok (number_or_null_of_part v.patch c)))

no_band :
    (mode : Option DotnetInstallMode) (v : Text)
    → is_sdk mode ≡ false
    → get_feature_band mode v ≡ none
unfolding get_feature_band
no_band mode v e = rw e refl

decided_on_numbers :
    (available requested : Runtime) (context : FindPathContext)
    → IsRuntime available
    → IsRuntime requested
    → is_sdk context.mode ≡ false
    → string_version_meets_requirement (text_of available) (text_of requested) context
      ≡ decision context.version_spec_requirement (numbers_of available) (numbers_of requested)
unfolding string_version_meets_requirement
decided_on_numbers available requested context (a, b, c) (a', b', c') e =
    let v = major_minor_of_three available.major available.minor available.patch a.1 b.1 c.1 in
    let w = major_minor_of_three requested.major requested.minor requested.patch a'.1 b'.1 c'.1 in
    rw
      (
        v.0,
        v.1,
        w.0,
        w.1,
        no_band context.mode (text_of available) e,
        patch_of_runtime context.mode available (a, b, c) e,
        patch_of_runtime context.mode requested (a', b', c') e,
        number_of_part available.major a,
        number_of_part available.minor b,
        number_of_part requested.major a',
        number_of_part requested.minor b',
      )
      refl

-- Where no SDK is asked for, for versions of three decimal numbers of which the requested patch is
-- not 0, the validator accepts exactly the versions that the requirement means: `equal` and `disable` the same
-- version, `greater_than_or_equal` and `latestMajor` those not before it, `less_than_or_equal`
-- those not after it, `latestPatch` and `latestFeature` those of its major and minor with no
-- smaller patch. It never throws on them.
pub runtime_requirement_meaning :
    (available requested : Runtime) (context : FindPathContext)
    → IsRuntime available
    → IsRuntime requested
    → is_sdk context.mode ≡ false
    → (numbers_of requested).patch ≢ 0
    → string_version_meets_requirement (text_of available) (text_of requested) context
      ≡ ok (accepts context.version_spec_requirement (numbers_of available) (numbers_of requested))
runtime_requirement_meaning available requested context a b e nz =
    decided_on_numbers available requested context a b e
    ∙ decision-accepts context.version_spec_requirement (numbers_of available)
        (numbers_of requested) nz

-- Where no SDK is asked for, for versions of three decimal numbers of the same major and minor of
-- which the requested patch is 0, the validator accepts every available patch under every requirement, so
-- also under `equal` and `less_than_or_equal`.
pub zero_patch_accepts_all :
    (available requested : Runtime) (context : FindPathContext)
    → IsRuntime available
    → IsRuntime requested
    → is_sdk context.mode ≡ false
    → same_minor (numbers_of available) (numbers_of requested) ≡ true
    → (numbers_of requested).patch ≡ 0
    → string_version_meets_requirement (text_of available) (text_of requested) context ≡ ok true
zero_patch_accepts_all available requested context a b e same z =
    decided_on_numbers available requested context a b e
    ∙ decision_of_zero context.version_spec_requirement (numbers_of available)
        (numbers_of requested) same z
