-- ===== src/Tests/Listing.antt =====
-- Runs of the theorems on DotnetResolver.ts and VersionResolver.ts.
use vscode_dotnet_runtime.Prelude.{
  ℕ, every, Bool-cases, inl, inr, ◌==◌, ◌≡◌, ◌≢◌, refl, ◌⊎◌, Bool, true, false, not, none, some,
  List, [], ◌∷◌, ◌++◌, map, keep, All, ok,
}
use mathlib.Core.List.{Memᴰ}
use mathlib.Core.List.Memᴰ.{head, tail}
use vscode_dotnet_runtime.Text.{Text, codes, ◌===◌, split}
use vscode_dotnet_runtime.Text.Split.{Lacks}
use vscode_dotnet_runtime.Text.Number.{is_space}
use vscode_dotnet_runtime.Version.{bad_version}
use vscode_dotnet_runtime.Install.{sdk, runtime, undefined, named, same_mode}
use vscode_dotnet_runtime.Listing.{Shell, get_runtimes, get_dotnet_installs}
use vscode_dotnet_runtime.Listing.Printed.{
  Printed, IsPrintable, listed, print_runtimes, printed_runtimes_read,
}
use vscode_dotnet_runtime.Listing.Matching.{Matches, installs_match_request}
use vscode_dotnet_runtime.Releases.{
  ReleaseEntry, is_listed, latest_of, value_or, validate_version_input, get_full_version,
  get_releases_info, get_available_dotnet_versions, listed_versions, listed_version,
  resolve_version,
}
use vscode_dotnet_runtime.Releases.Resolved.{resolved_is_listed, listed_version_resolves}

abbrev core_8 : Printed
core_8 = record {
  name = codes "Microsoft.NETCore.App";
  version = codes "8.0.7";
  directory = codes "C:\\Program Files\\dotnet\\shared";
}

abbrev desktop_8 : Printed
desktop_8 = record {
  name = codes "Microsoft.WindowsDesktop.App";
  version = codes "8.0.7";
  directory = codes "C:\\dotnet";
}

abbrev two_runtimes : List Printed
two_runtimes = core_8 ∷ desktop_8 ∷ []

-- A host that prints the two runtimes, whatever it is asked.
abbrev shell : Shell
shell = record {
  run = λ root arguments. record { status = codes "0"; stdout = print_runtimes true two_runtimes };
  file = λ path. none;
  dirname = λ path. path;
  path_join = λ folder file. folder ++ file;
  dotnet_executable = codes "dotnet.exe";
  default_architecture = codes "x64";
  dont_accept_unknown_arch = false;
  arch_flag_by_date = true;
}

-- The absence of a code, by a run.
Lacks-of_run : (c : ℕ) (t : Text) → every (λ x. not (x == c)) t ≡ true → Lacks c t
Lacks-of_run c [] e = tt
Lacks-of_run c (x ∷ xs) e = elim (Bool-cases (x == c)) [
  | inl found ↦ cc
  | inr other ↦ (other, Lacks-of_run c xs (rw other at e))
]

two_runtimes-IsPrintable : All IsPrintable two_runtimes
unfolding is_space
two_runtimes-IsPrintable = (
  (
    (b'M', codes "icrosoft.NETCore.App", refl, refl),
    Lacks-of_run b' ' core_8.name refl,
    Lacks-of_run b' ' core_8.version refl,
    Lacks-of_run 10 core_8.name refl,
    Lacks-of_run 10 core_8.version refl,
    Lacks-of_run 10 core_8.directory refl,
  ),
  (
    (
      (b'M', codes "icrosoft.WindowsDesktop.App", refl, refl),
      Lacks-of_run b' ' desktop_8.name refl,
      Lacks-of_run b' ' desktop_8.version refl,
      Lacks-of_run 10 desktop_8.name refl,
      Lacks-of_run 10 desktop_8.version refl,
      Lacks-of_run 10 desktop_8.directory refl,
    ),
    tt,
  ),
)

printed_runtimes_read_example :
    get_runtimes shell (codes "dotnet") undefined
    ≡ keep (λ x. not (same_mode x.mode sdk)) (map listed two_runtimes)
unfolding ◌===◌
printed_runtimes_read_example =
    printed_runtimes_read shell (codes "dotnet") undefined true two_runtimes
      two_runtimes-IsPrintable refl refl

not_empty : codes "x64" ≢ []
not_empty e = cc

installs_match_request_example :
    All
      (Matches shell (same_mode runtime sdk) (codes "x64"))
      (get_dotnet_installs shell (codes "dotnet") runtime (named (codes "x64")))
installs_match_request_example =
    installs_match_request shell (codes "dotnet") (codes "x64") runtime not_empty

abbrev release_9 : ReleaseEntry
release_9 = record {
  release_type = some (codes "sts");
  support_phase = some (codes "active");
  latest_sdk = some (codes "9.0.101");
  latest_runtime = some (codes "9.0.0");
  channel_version = some (codes "9.0");
}

abbrev release_8 : ReleaseEntry
release_8 = record {
  release_type = some (codes "lts");
  support_phase = none;
  latest_sdk = some (codes "8.0.404");
  latest_runtime = some (codes "8.0.11");
  channel_version = some (codes "8.0");
}

abbrev entries : List ReleaseEntry
entries = release_9 ∷ release_8 ∷ []

abbrev any_text : Text → Bool
any_text t = true

channel_8 : get_full_version any_text (some entries) (codes "8.0") runtime ≡ ok (codes "8.0.11")
unfolding get_full_version get_releases_info get_available_dotnet_versions listed_versions is_listed
    listed_version resolve_version validate_version_input ◌===◌ split
channel_8 = refl

resolved_is_listed_example :
    (release : ReleaseEntry) × Memᴰ release entries
    × (is_listed release ≡ true)
    × (codes "8.0.11" ≡ latest_of (same_mode runtime sdk) release)
    × ((codes "8.0.11" ≡ codes "8.0")
        ⊎ (value_or release.channel_version bad_version ≡ codes "8.0"))
resolved_is_listed_example =
    resolved_is_listed any_text entries (codes "8.0") runtime (codes "8.0.11") channel_8

listed_version_resolves_example :
    get_full_version any_text (some entries) (latest_of (same_mode sdk sdk) release_8) sdk
    ≡ ok (latest_of (same_mode sdk sdk) release_8)
unfolding validate_version_input is_listed ◌===◌ split
listed_version_resolves_example =
    listed_version_resolves any_text entries release_8 sdk refl (tail (head refl)) refl
