-- ===== src/Tests/Meeting.antt =====
-- Runs of the theorems on DotnetConditionValidator.ts.
use mathlib.Core.List.{Memᴰ}
use vscode_dotnet_runtime.Prelude.{◌≡◌, ◌⊎◌, refl, true, false, some, List, [], ◌∷◌, arith, ok}
use vscode_dotnet_runtime.Text.{Text, codes}
use vscode_dotnet_runtime.Text.Split.{Lacks}
use vscode_dotnet_runtime.Install.{DotnetInstallMode, Architecture, runtime, named}
use vscode_dotnet_runtime.Condition.{
  equal, greater_than_or_equal, FindPathContext, DotnetListInfo, InstallRecordWithPath,
  string_version_meets_requirement, allow_preview, dotnet_meets_requirement,
}
use vscode_dotnet_runtime.Condition.Runtime.{
  Runtime, IsRuntime, text_of, numbers_of, runtime_requirement_meaning, zero_patch_accepts_all,
}
use vscode_dotnet_runtime.Condition.Decision.{accepts}
use vscode_dotnet_runtime.Condition.Fits.{IsReported, FitsArchitecture}
use vscode_dotnet_runtime.Condition.Accepted.{HasMode, accepted_has_install}
use vscode_dotnet_runtime.Tests.Tracking.{here, install}

abbrev eight : Runtime
eight = record { major = codes "8"; minor = codes "0"; patch = codes "12" }

abbrev eight_one : Runtime
eight_one = record { major = codes "8"; minor = codes "0"; patch = codes "1" }

abbrev eight_zero : Runtime
eight_zero = record { major = codes "8"; minor = codes "0"; patch = codes "0" }

eight-IsRuntime : IsRuntime eight
eight-IsRuntime = ((λ e. cc, (refl, tt)), (λ e. cc, (refl, tt)), (λ e. cc, (refl, (refl, tt))))

eight_one-IsRuntime : IsRuntime eight_one
eight_one-IsRuntime = ((λ e. cc, (refl, tt)), (λ e. cc, (refl, tt)), (λ e. cc, (refl, tt)))

eight_zero-IsRuntime : IsRuntime eight_zero
eight_zero-IsRuntime = ((λ e. cc, (refl, tt)), (λ e. cc, (refl, tt)), (λ e. cc, (refl, tt)))

abbrev context : FindPathContext
context = record {
  version = codes "8.0.1";
  mode = some runtime;
  architecture = named here;
  version_spec_requirement = greater_than_or_equal;
  reject_previews = true;
}

abbrev exact : FindPathContext
exact = record context { version_spec_requirement = equal }

runtime_requirement_meaning_example :
    string_version_meets_requirement (text_of eight) (text_of eight_one) context
    ≡ ok (accepts greater_than_or_equal (numbers_of eight) (numbers_of eight_one))
runtime_requirement_meaning_example =
    runtime_requirement_meaning eight eight_one context eight-IsRuntime eight_one-IsRuntime refl
      (omega arith)

zero_patch_accepts_all_example :
    string_version_meets_requirement (text_of eight) (text_of eight_zero) exact ≡ ok true
zero_patch_accepts_all_example =
    zero_patch_accepts_all eight eight_zero exact eight-IsRuntime eight_zero-IsRuntime refl refl
      refl

abbrev listed : List DotnetListInfo
listed = record { mode = runtime; version = codes "8.0.12"; architecture = some here } ∷ []

abbrev installs : DotnetInstallMode → Architecture → List DotnetListInfo
installs mode arch = listed

accepted_has_install_example :
    (mode : DotnetInstallMode) × (i : DotnetListInfo) × (first : DotnetListInfo) × (rest : List
      DotnetListInfo)
    × (output : Text) × (context.mode ≡ some mode)
    × (installs mode context.architecture ≡ first ∷ rest)
    × Memᴰ i (first ∷ rest)
    × HasMode mode i
    × IsReported first here output
    × FitsArchitecture output context.architecture
    × (string_version_meets_requirement i.version context.version context ≡ ok true)
    × ((context.reject_previews ≡ false) ⊎ Lacks b'-' i.version)
unfolding dotnet_meets_requirement string_version_meets_requirement
    vscode_dotnet_runtime.Version.get_major vscode_dotnet_runtime.Version.get_major_minor
    vscode_dotnet_runtime.Text.split vscode_dotnet_runtime.Version.get_runtime_patch_version_string
    vscode_dotnet_runtime.Version.is_number vscode_dotnet_runtime.Text.Number.is_nan
    vscode_dotnet_runtime.Text.Number.to_number vscode_dotnet_runtime.Text.Number.same_number
    vscode_dotnet_runtime.Version.get_minor vscode_dotnet_runtime.Text.Number.is_truthy
    allow_preview vscode_dotnet_runtime.Version.is_preview_version
    vscode_dotnet_runtime.Text.includes_code
accepted_has_install_example = accepted_has_install installs here context refl

abbrev records : List InstallRecordWithPath
records = record { dotnet_install = install; install_path = codes "/d/dotnet" } ∷ []
