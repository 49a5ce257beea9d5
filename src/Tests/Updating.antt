-- ===== src/Tests/Updating.antt =====
-- Runs of the theorems on LocalInstallUpdateService.ts.
use mathlib.Core.List.{Memᴰ}
use vscode_dotnet_runtime.Prelude.{
  ℕ, ◌≤◌, ◌≡◌, refl, ◌∙◌, Bool, true, ◌&&◌, ◌||◌, some, [], ◌∷◌, ◌==◌, if◌then◌else◌, length,
  any_of, All,
}
use vscode_dotnet_runtime.Text.{Text, codes}
use vscode_dotnet_runtime.Tracker.State.{InstallRecord, has_owner}
use vscode_dotnet_runtime.Install.{AcquireContext}
use vscode_dotnet_runtime.Tracker.State.{ExtensionState, current, get_existing_installs}
use vscode_dotnet_runtime.Tracker.Installs.{remove_version_from_extension_state}
use vscode_dotnet_runtime.Tracker.Records.{or_empty, owners_in}
use vscode_dotnet_runtime.Tracker.Owners.{owners_of, remove_version_owners}
use vscode_dotnet_runtime.Update.{patch_number, latest_from, finish_group, uninstall_context}
use vscode_dotnet_runtime.Update.Latest.{latest_is_greatest}
use vscode_dotnet_runtime.Update.Owners.{is_extension, handed_over}
use vscode_dotnet_runtime.Tests.Tracking.{here, install, extension}

abbrev older : InstallRecord
older = record { dotnet_install = install; installing_extensions = some extension ∷ [] }

abbrev newer : InstallRecord
newer = record {
  dotnet_install = record install { install_id = codes "8.0.12~x64"; version = codes "8.0.12" };
  installing_extensions = some (codes "user") ∷ [];
}

-- The patch of the two versions.
abbrev patch : InstallRecord → ℕ
patch r = if length r.dotnet_install.version == 5 then 1 else 12

latest_is_greatest_example :
    Memᴰ (latest_from older (older ∷ newer ∷ [])) (older ∷ newer ∷ [])
    × All (λ r. patch r ≤ patch (latest_from older (older ∷ newer ∷ []))) (older ∷ newer ∷ [])
unfolding patch_number vscode_dotnet_runtime.Text.split vscode_dotnet_runtime.Text.Number.to_number
latest_is_greatest_example = latest_is_greatest patch older (newer ∷ []) (refl, (refl, tt))

-- The installs of a group under ids that are their versions, and a state that tracks both.
abbrev old_8 : InstallRecord
old_8 = record older {
  dotnet_install = record install { install_id = codes "8.0.1"; version = codes "8.0.1" };
}

abbrev new_8 : InstallRecord
new_8 = record older {
  dotnet_install = record install { install_id = codes "8.0.12"; version = codes "8.0.12" };
  installing_extensions = some (codes "user") ∷ [];
}

abbrev both : ExtensionState
both = record {
  installed =
      current old_8.dotnet_install (some old_8.installing_extensions)
      ∷ current new_8.dotnet_install (some new_8.installing_extensions)
      ∷ [];
  sessions = [];
}

abbrev acquire : AcquireContext → ExtensionState → ExtensionState × Bool
acquire c s = (s, true)

-- Untracks the install whose id is the version.
abbrev untrack : AcquireContext → ExtensionState → ExtensionState
untrack c s =
    remove_version_from_extension_state here c.requesting_extension_id
      (record install { install_id = c.version; version = c.version }) true s

handed_over_example :
    has_owner (some extension) (
      or_empty (
        owners_of here
          (codes "8.0.12")
          (finish_group here acquire untrack (old_8 ∷ new_8 ∷ []) (old_8 ∷ new_8 ∷ []) both).0))
    ≡ (has_owner (some extension) (some (codes "user") ∷ [])
        || (is_extension extension
            && any_of
                (λ r. has_owner (some extension) r.installing_extensions)
                (old_8 ∷ new_8 ∷ [])))
unfolding latest_from get_existing_installs owners_in patch_number vscode_dotnet_runtime.Text.split
    vscode_dotnet_runtime.Text.Number.to_number vscode_dotnet_runtime.Text.Number.less_or_equal
handed_over_example =
    handed_over extension here untrack acquire (old_8 ∷ new_8 ∷ []) old_8 (new_8 ∷ [])
      (some (codes "user") ∷ []) both refl
      (λ r t other.
        remove_version_owners here (uninstall_context r).requesting_extension_id
          (record install {
            install_id = r.dotnet_install.version;
            version = r.dotnet_install.version;
          })
          true t (codes "8.0.12")
        ∙ rw other refl)
