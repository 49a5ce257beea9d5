-- ===== src/Condition/Decision.antt =====
-- DotnetConditionValidator.ts: the `switch` statements of `stringVersionMeetsRequirement` on numbers,
-- against the order of versions.
use vscode_dotnet_runtime.Prelude.{
  ℕ, ◌≡◌, ◌≢◌, Bool, true, false, ◌&&◌, ◌||◌, some, arith, ltb, leb, ◌==◌, Result, ok,
  if◌then◌else◌,
}
use vscode_dotnet_runtime.Text.Number.{of_ℕ, is_truthy, less_or_equal, same_number}
use vscode_dotnet_runtime.Text.Number.Digits.{same_number-of_ℕ}
use vscode_dotnet_runtime.Condition.{
  DotnetVersionSpecRequirement, equal, greater_than_or_equal, less_than_or_equal, latest_patch,
  latest_feature, latest_major, disable, adjusted, patch_meets, minor_meets, major_meets,
}

-- A version as its three numbers.
pub record Numbers : Type 0 where
  pub major : ℕ
  pub minor : ℕ
  pub patch : ℕ

abbrev pub version_leb : Numbers → Numbers → Bool
version_leb a b =
    ltb a.major b.major
    || (a.major == b.major && (ltb a.minor b.minor || (a.minor == b.minor && leb a.patch b.patch)))

abbrev pub same_minor : Numbers → Numbers → Bool
same_minor a b = a.major == b.major && a.minor == b.minor

-- Which available versions a requirement accepts, by the order of versions.
abbrev pub accepts : DotnetVersionSpecRequirement → Numbers → Numbers → Bool
accepts equal available requested =
    same_minor available requested && available.patch == requested.patch
accepts disable available requested =
    same_minor available requested && available.patch == requested.patch
accepts greater_than_or_equal available requested = version_leb requested available
accepts latest_major available requested = version_leb requested available
accepts less_than_or_equal available requested = version_leb available requested
accepts latest_patch available requested =
    same_minor available requested && leb requested.patch available.patch
accepts latest_feature available requested =
    same_minor available requested && leb requested.patch available.patch

major_meets-accepts :
    (spec : DotnetVersionSpecRequirement) (a b : Numbers)
    → (a.major == b.major) ≡ false
    → major_meets (adjusted spec) (of_ℕ a.major) (of_ℕ b.major) ≡ accepts spec a b
unfolding major_meets less_or_equal
major_meets-accepts equal a b e = ground arith
major_meets-accepts greater_than_or_equal a b e = ground arith
major_meets-accepts less_than_or_equal a b e = ground arith
major_meets-accepts latest_patch a b e = ground arith
major_meets-accepts latest_feature a b e = ground arith
major_meets-accepts latest_major a b e = ground arith
major_meets-accepts disable a b e = ground arith

minor_meets-accepts :
    (spec : DotnetVersionSpecRequirement) (a b : Numbers)
    → (a.major == b.major) ≡ true
    → (a.minor == b.minor) ≡ false
    → minor_meets (adjusted spec) (of_ℕ a.minor) (of_ℕ b.minor) true ≡ accepts spec a b
unfolding minor_meets less_or_equal same_number
minor_meets-accepts equal a b e f = ground arith
minor_meets-accepts greater_than_or_equal a b e f = ground arith
minor_meets-accepts less_than_or_equal a b e f = ground arith
minor_meets-accepts latest_patch a b e f = ground arith
minor_meets-accepts latest_feature a b e f = ground arith
minor_meets-accepts latest_major a b e f = ground arith
minor_meets-accepts disable a b e f = ground arith

patch_meets-accepts :
    (spec : DotnetVersionSpecRequirement) (a b : Numbers)
    → (a.major == b.major) ≡ true
    → (a.minor == b.minor) ≡ true
    → patch_meets (adjusted spec) (some (of_ℕ a.patch)) (some (of_ℕ b.patch)) true
      ≡ accepts spec a b
unfolding patch_meets less_or_equal same_number
patch_meets-accepts equal a b e f = ground arith
patch_meets-accepts greater_than_or_equal a b e f = ground arith
patch_meets-accepts less_than_or_equal a b e f = ground arith
patch_meets-accepts latest_patch a b e f = ground arith
patch_meets-accepts latest_feature a b e f = ground arith
patch_meets-accepts latest_major a b e f = ground arith
patch_meets-accepts disable a b e f = ground arith

-- The three `switch` statements on the numbers alone.
abbrev pub decision : DotnetVersionSpecRequirement → Numbers → Numbers → Result Bool
decision spec a b =
    if same_number (of_ℕ a.major) (of_ℕ b.major)
    then (if same_number (of_ℕ a.minor) (of_ℕ b.minor) && is_truthy (of_ℕ b.patch)
        then ok (patch_meets (adjusted spec) (some (of_ℕ a.patch)) (some (of_ℕ b.patch)) true)
        else ok (minor_meets (adjusted spec) (of_ℕ a.minor) (of_ℕ b.minor) true))
    else ok (major_meets (adjusted spec) (of_ℕ a.major) (of_ℕ b.major))

pub decision-accepts :
    (spec : DotnetVersionSpecRequirement) (a b : Numbers)
    → b.patch ≢ 0
    → decision spec a b ≡ ok (accepts spec a b)
unfolding is_truthy
decision-accepts spec a b nz = ground (
  arith,
  same_number-of_ℕ a.major b.major,
  same_number-of_ℕ a.minor b.minor,
  major_meets-accepts spec a b,
  minor_meets-accepts spec a b,
  patch_meets-accepts spec a b,
)

minor_meets_same :
    (spec : DotnetVersionSpecRequirement) (n m : ℕ)
    → n ≡ m
    → minor_meets (adjusted spec) (of_ℕ n) (of_ℕ m) true ≡ true
unfolding minor_meets less_or_equal same_number
minor_meets_same equal n m e = ground arith
minor_meets_same greater_than_or_equal n m e = ground arith
minor_meets_same less_than_or_equal n m e = ground arith
minor_meets_same latest_patch n m e = ground arith
minor_meets_same latest_feature n m e = ground arith
minor_meets_same latest_major n m e = ground arith
minor_meets_same disable n m e = ground arith

pub decision_of_zero :
    (spec : DotnetVersionSpecRequirement) (a b : Numbers)
    → same_minor a b ≡ true
    → b.patch ≡ 0
    → decision spec a b ≡ ok true
unfolding is_truthy
decision_of_zero spec a b e z = ground (
  arith,
  same_number-of_ℕ a.major b.major,
  same_number-of_ℕ a.minor b.minor,
  minor_meets_same spec a.minor b.minor,
)
