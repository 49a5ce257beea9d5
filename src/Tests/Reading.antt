-- ===== src/Tests/Reading.antt =====
-- Runs of the theorems on VersionUtilities.ts, InstallIdUtilities.ts and
-- ExecutableArchitectureDetector.ts.
use vscode_dotnet_runtime.Prelude.{◌≡◌, refl, true, some, [], ◌∷◌, ◌++◌, replicate, ok}
use vscode_dotnet_runtime.Text.{Text, codes}
use vscode_dotnet_runtime.Version.{
  get_major, get_minor, get_feature_band_from_version, get_sdk_patch_version_string,
  get_sdk_complete_band_and_patch_version_string,
}
use vscode_dotnet_runtime.Version.Parts.{three, sdk_version_parts}
use vscode_dotnet_runtime.Install.{
  local, named, aspnetcore, get_install_id_custom_architecture, is_global_legacy_install_id,
  get_version_from_legacy_install_id, get_arch_from_legacy_install_id,
}
use vscode_dotnet_runtime.Install.Ids.{local_id_round_trip}
use vscode_dotnet_runtime.Executable.{Buffer}

sdk_version_parts_example :
    let version = three (codes "8") (codes "0") (codes "302") in
    (get_major version ≡ ok (codes "8"))
    × (get_minor version ≡ ok (codes "0"))
    × (get_feature_band_from_version version true ≡ ok (codes "3"))
    × (get_sdk_patch_version_string version true ≡ ok (codes "02"))
    × (get_sdk_complete_band_and_patch_version_string version ≡ some (codes "302"))
sdk_version_parts_example =
    sdk_version_parts (codes "8") (codes "0") b'3' (codes "02") true (refl, tt)
      (λ e. cc, (refl, tt)) (refl, tt) (λ e. cc, (refl, (refl, tt)))

local_id_round_trip_example :
    let id =
      get_install_id_custom_architecture
        (codes "x64")
        (codes "8.0.1")
        (named (codes "arm64"))
        aspnetcore
        local in
    (get_version_from_legacy_install_id id ≡ codes "8.0.1")
    × (get_arch_from_legacy_install_id id ≡ some (codes "arm64"))
unfolding is_global_legacy_install_id get_install_id_custom_architecture
    vscode_dotnet_runtime.Text.includes vscode_dotnet_runtime.Text.to_lower_case
    vscode_dotnet_runtime.Text.◌===◌
local_id_round_trip_example =
    local_id_round_trip (codes "x64") (codes "8.0.1") (codes "arm64") aspnetcore
      (refl, (refl, (refl, (refl, (refl, tt))))) (λ e. cc)
      (refl, (refl, (refl, (refl, (refl, tt))))) refl

-- The first bytes of an ELF file for x64, of a Mach-O file for arm64 and of a PE file for x86.
abbrev elf : Buffer
elf = 0x7f ∷ 0x45 ∷ 0x4c ∷ 0x46 ∷ (replicate 14 0 ++ 0x3e ∷ 0 ∷ [])

abbrev mach_o : Buffer
mach_o = 0xcf ∷ 0xfa ∷ 0xed ∷ 0xfe ∷ 0x0c ∷ 0 ∷ 0 ∷ 1 ∷ []

abbrev pe : Buffer
pe = 0x4d ∷ 0x5a ∷ (replicate 58 0 ++ 0x40 ∷ 0 ∷ 0 ∷ 0 ∷ 0x50 ∷ 0x45 ∷ 0 ∷ 0 ∷ 0x4c ∷ 1 ∷ [])
