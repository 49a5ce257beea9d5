-- ===== src/Install/Ids.antt =====
-- What the install ids carry, and what is read back from them.
use mathlib.Core.List.{append-nil}
use vscode_dotnet_runtime.Prelude.{
  ◌≡◌, refl, ◌≢◌, ap, sym, ◌∙◌, true, false, some, ◌++◌, [], ◌∷◌, List, arith,
}
use vscode_dotnet_runtime.Text.{Text, codes, ===_iff, split, includes, includes_code, to_lower_case}
use vscode_dotnet_runtime.Text.Split.{Lacks, split_of_Lacks, split-append}
use vscode_dotnet_runtime.Text.Search.{includes-append, includes_prefix, to_lower_case-append}
use vscode_dotnet_runtime.Install.{
  DotnetInstallMode, sdk, runtime, aspnetcore, DotnetInstallType, local, global, named, mode_suffix,
  id_with_architecture, get_install_id_custom_architecture, is_global_legacy_install_id,
  get_version_from_legacy_install_id, get_arch_from_legacy_install_id, get_assumed_install_info,
}

-- What follows the architecture, behind the next `~`.
abbrev mode_parts : DotnetInstallMode → List Text
mode_parts aspnetcore = codes "aspnetcore" ∷ []
mode_parts _ = []

suffix_of_parts :
    (m m' : DotnetInstallMode) → mode_parts m ≡ mode_parts m' → mode_suffix m ≡ mode_suffix m'
suffix_of_parts m m' e = ground arith

split_arch :
    (arch : Text) (mode : DotnetInstallMode)
    → Lacks b'~' arch
    → split b'~' (arch ++ mode_suffix mode) ≡ arch ∷ mode_parts mode
unfolding split
split_arch arch sdk h = rw append-nil (split_of_Lacks b'~' arch h)
split_arch arch runtime h = rw append-nil (split_of_Lacks b'~' arch h)
split_arch arch aspnetcore h = rw (split-append b'~' arch (codes "aspnetcore") h)

includes_code_middle : (s t : Text) → includes_code (s ++ b'~' ∷ t) b'~' ≡ true
unfolding includes_code
includes_code_middle [] t = refl
includes_code_middle (x ∷ s) t = ground (arith, includes_code_middle s t)

is_global_middle : (s t : Text) → is_global_legacy_install_id (s ++ (codes "-global~" ++ t)) ≡ true
unfolding is_global_legacy_install_id to_lower_case includes
is_global_middle s t = rw (to_lower_case-append s (codes "-global~" ++ t)) (
    includes-append (to_lower_case s) _ (codes "global")
      (includes_prefix (codes "global") (b'~' ∷ to_lower_case t)))

module _ (default_architecture version arch : Text) (mode : DotnetInstallMode) (a : Lacks b'~' arch)
    (ne : arch ≢ codes "null") where
  abbrev id_of : DotnetInstallType → Text
  id_of = get_install_id_custom_architecture default_architecture version (named arch) mode

  id_of_named :
      (type : DotnetInstallType) → id_of type ≡ id_with_architecture version arch mode type
  unfolding get_install_id_custom_architecture
  id_of_named type = ground (arith, ===_iff arch (codes "null"))

  split_local : Lacks b'~' version → split b'~' (id_of local) ≡ version ∷ arch ∷ mode_parts mode
  split_local v = rw (id_of_named local) (
      rw (split-append b'~' version (arch ++ mode_suffix mode) v)
        (ap (◌∷◌ version) (split_arch arch mode a)))

  -- The id of a local install with an architecture gives back its version and architecture, where
  -- neither holds a `~`, the architecture is not the text `null`, and the id is not taken for a
  -- global one.
  pub local_id_round_trip :
      Lacks b'~' version
      → is_global_legacy_install_id (id_of local) ≡ false
      → (get_version_from_legacy_install_id (id_of local) ≡ version)
        × (get_arch_from_legacy_install_id (id_of local) ≡ some arch)
  unfolding get_version_from_legacy_install_id get_arch_from_legacy_install_id
  local_id_round_trip v h =
      let tilde : includes_code (id_of local) b'~' ≡ true =
        rw (id_of_named local) (includes_code_middle version (arch ++ mode_suffix mode)) in
      (rw (h, tilde) (rw (split_local v)), rw (split_local v) (ground arith))

  -- The id of a global install, with an architecture that holds no `~` and is not the text `null`,
  -- is recognized as global and gives back the version, where that holds no dash.
  pub global_id_round_trip :
      Lacks b'-' version
      → (is_global_legacy_install_id (id_of global) ≡ true)
        × (get_version_from_legacy_install_id (id_of global) ≡ version)
  unfolding get_version_from_legacy_install_id
  global_id_round_trip v =
      let found : is_global_legacy_install_id (id_of global) ≡ true =
        rw (id_of_named global) (is_global_middle version (arch ++ mode_suffix mode)) in
      (found, rw found (rw (id_of_named global) (rw (split-append b'-' version _ v))))

-- Two local installs with an architecture get the same id only if they agree on the version, on the
-- architecture and on being an ASP.NET runtime, where versions and architectures hold no `~` and no
-- architecture is the text `null`.
-- (An SDK and a runtime of one version share the id.)
pub local_id_injective :
    (default_architecture v v' a a' : Text) (m m' : DotnetInstallMode)
    → Lacks b'~' v
    → Lacks b'~' v'
    → Lacks b'~' a
    → Lacks b'~' a'
    → a ≢ codes "null"
    → a' ≢ codes "null"
    → get_install_id_custom_architecture default_architecture v (named a) m local
      ≡ get_install_id_custom_architecture default_architecture v' (named a') m' local
    → (v ≡ v') × (a ≡ a') × (mode_suffix m ≡ mode_suffix m')
local_id_injective d v v' a a' m m' lv lv' la la' na na' e =
    let same : v ∷ a ∷ mode_parts m ≡ v' ∷ a' ∷ mode_parts m' =
      sym (split_local d v a m la na lv) ∙ ap (split b'~') e ∙ split_local d v' a' m' la' na' lv' in
    (cc, cc, suffix_of_parts m m' cc)

-- A given mode is not kept: the assumed install is a runtime, whatever the mode.
pub assumed_mode_of_given :
    (default_architecture id : Text) (mode : DotnetInstallMode)
    → (get_assumed_install_info default_architecture id (some mode)).install_mode ≡ runtime
unfolding get_assumed_install_info
assumed_mode_of_given d id mode = refl
