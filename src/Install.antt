-- ===== src/Install.antt =====
-- vscode-dotnet-runtime-library/src/Acquisition/DotnetInstall.ts, DotnetInstallMode.ts,
-- IDotnetAcquireContext.ts and src/Utils/InstallIdUtilities.ts: what an install is, and the
-- identifiers that name it. `DotnetCoreAcquisitionWorker.defaultArchitecture()` is Node's
-- `os.arch()`, the parameter `default_architecture`.
pub mod Ids
use vscode_dotnet_runtime.Prelude.{
  Bool, true, false, ◌&&◌, ◌||◌, not, Option, none, some, List, [], ◌∷◌, ◌++◌, leb, if◌then◌else◌,
  length, get_elem?, get_or, any_of, keep,
}
use vscode_dotnet_runtime.Text.{Text, codes, ◌===◌, split, includes, includes_code, to_lower_case}

pub data DotnetInstallMode : Type 0 where
  sdk runtime aspnetcore : DotnetInstallMode

pub data DotnetInstallType : Type 0 where
  local global : DotnetInstallType

-- `string | null | undefined`: null is the legacy install that no architecture names.
pub data Architecture : Type 0 where
  null : Architecture
  undefined : Architecture
  named : Text → Architecture

pub record DotnetInstall : Type 0 where
  pub install_id : Text
  pub version : Text
  pub architecture : Architecture
  pub is_global : Bool
  pub install_mode : DotnetInstallMode

-- The fields of `IDotnetAcquireContext` that the modelled code reads; `none` is undefined.
pub record AcquireContext : Type 0 where
  pub version : Text
  pub requesting_extension_id : Option Text
  pub install_type : Option DotnetInstallType
  pub architecture : Architecture
  pub mode : DotnetInstallMode

abbrev pub mode_name : DotnetInstallMode → Text
mode_name sdk = codes "sdk"
mode_name runtime = codes "runtime"
mode_name aspnetcore = codes "aspnetcore"

abbrev pub same_mode : DotnetInstallMode → DotnetInstallMode → Bool
same_mode sdk sdk = true
same_mode runtime runtime = true
same_mode aspnetcore aspnetcore = true
same_mode _ _ = false

abbrev pub same_bool : Bool → Bool → Bool
same_bool true b = b
same_bool false b = not b

unfoldable pub same_architecture : Architecture → Architecture → Bool
same_architecture null null = true
same_architecture undefined undefined = true
same_architecture (named a) (named b) = a === b
same_architecture _ _ = false

abbrev pub is_global_type : DotnetInstallType → Bool
is_global_type global = true
is_global_type local = false

-- `mode === 'aspnetcore' ? '~aspnetcore' : ''`
abbrev pub mode_suffix : DotnetInstallMode → Text
mode_suffix aspnetcore = codes "~aspnetcore"
mode_suffix _ = []

abbrev legacy_id : Text → DotnetInstallType → Text
legacy_id version global = version ++ codes "-global"
legacy_id version local = version

abbrev pub id_with_architecture : Text → Text → DotnetInstallMode → DotnetInstallType → Text
id_with_architecture version arch mode global =
    version ++ (codes "-global~" ++ (arch ++ mode_suffix mode))
id_with_architecture version arch mode local = version ++ (codes "~" ++ (arch ++ mode_suffix mode))

unfoldable pub is_equivalent_installation_file : DotnetInstall → DotnetInstall → Bool
unfolding same_architecture
is_equivalent_installation_file a b =
    a.version === b.version
    && same_architecture a.architecture b.architecture
    && same_bool a.is_global b.is_global
    && same_mode a.install_mode b.install_mode

unfoldable pub is_equivalent_installation : DotnetInstall → DotnetInstall → Bool
is_equivalent_installation a b = a.install_id === b.install_id

unfoldable pub looks_like_runtime_version : Text → Bool
looks_like_runtime_version version = elim (get_elem? (split b'.' version) 2) [
  | none ↦ true
  | some band ↦ leb (length band) 2
]

unfoldable pub is_global_legacy_install_id : Text → Bool
is_global_legacy_install_id install_id = includes (to_lower_case install_id) (codes "global")

unfoldable pub get_arch_from_legacy_install_id : Text → Option Text
get_arch_from_legacy_install_id install_id =
    let split_id = split b'~' install_id in
    if leb 2 (length split_id) then some (get_or split_id 1 []) else none

unfoldable pub get_version_from_legacy_install_id : Text → Text
unfolding is_global_legacy_install_id
get_version_from_legacy_install_id install_id =
    if is_global_legacy_install_id install_id
    then get_or (split b'-' install_id) 0 []
    else if includes_code install_id b'~'
    then get_or (split b'~' install_id) 0 []
    else install_id

-- `DOTNET_INSTALL_MODE_LIST`
abbrev dotnet_install_mode_list : List Text
dotnet_install_mode_list = codes "sdk" ∷ codes "runtime" ∷ codes "aspnetcore" ∷ []

unfoldable pub is_runtime_install_id : Text → Bool
unfolding get_version_from_legacy_install_id looks_like_runtime_version
is_runtime_install_id install_id =
    not (
      any_of (λ mode. includes install_id mode)
        (keep (λ x. not (x === codes "runtime")) dotnet_install_mode_list))
    && looks_like_runtime_version (get_version_from_legacy_install_id install_id)

module _ (default_architecture : Text) where
  unfoldable pub get_install_id_custom_architecture :
      Text → Architecture → DotnetInstallMode → DotnetInstallType → Text
  get_install_id_custom_architecture version null mode type = legacy_id version type
  get_install_id_custom_architecture version undefined mode type =
      id_with_architecture version default_architecture mode type
  get_install_id_custom_architecture version (named arch) mode type =
      if arch === codes "null"
      then legacy_id version type
      else id_with_architecture version arch mode type

  -- `installType` defaults to local.
  abbrev type_or_local : Option DotnetInstallType → DotnetInstallType
  type_or_local none = local
  type_or_local (some type) = type

  unfoldable pub get_install_from_context : AcquireContext → DotnetInstall
  unfolding get_install_id_custom_architecture
  get_install_from_context ctx = record {
    install_id =
        get_install_id_custom_architecture ctx.version ctx.architecture ctx.mode
          (type_or_local ctx.install_type);
    version = ctx.version;
    architecture = ctx.architecture;
    is_global = is_global_type (type_or_local ctx.install_type);
    install_mode = ctx.mode;
  }

  unfoldable pub get_dotnet_install_info :
      Text → DotnetInstallMode → DotnetInstallType → Architecture → DotnetInstall
  unfolding get_install_id_custom_architecture
  get_dotnet_install_info version mode type arch = record {
    install_id = get_install_id_custom_architecture version arch mode type;
    version = version;
    architecture = arch;
    is_global = is_global_type type;
    install_mode = mode;
  }

  abbrev arch_or_default : Option Text → Text
  arch_or_default none = default_architecture
  arch_or_default (some arch) = arch

  -- `mode ?? isRuntimeInstallId(id) ? 'runtime' : 'sdk'`, where `??` binds before `?:`, and a mode
  -- that is given is a string that counts as true.
  abbrev assumed_mode : Text → Option DotnetInstallMode → DotnetInstallMode
  assumed_mode id (some mode) = runtime
  assumed_mode id none = if is_runtime_install_id id then runtime else sdk

  unfoldable pub get_assumed_install_info : Text → Option DotnetInstallMode → DotnetInstall
  unfolding get_version_from_legacy_install_id get_arch_from_legacy_install_id is_runtime_install_id
  get_assumed_install_info id mode = record {
    install_id = id;
    version = get_version_from_legacy_install_id id;
    architecture = named (arch_or_default (get_arch_from_legacy_install_id id));
    is_global = is_global_legacy_install_id id;
    install_mode = assumed_mode id mode;
  }
