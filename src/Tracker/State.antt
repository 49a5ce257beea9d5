-- ===== src/Tracker/State.antt =====
-- The persisted state of the tracker, the records of
-- vscode-dotnet-runtime-library/src/Acquisition/InstallRecord.ts, and `getExistingInstalls`, which
-- brings every stored record to the present form.
use vscode_dotnet_runtime.Prelude.{Bool, true, false, ◌||◌, Option, none, some, List, [], ◌∷◌, map}
use vscode_dotnet_runtime.Text.{Text, ◌===◌}
use vscode_dotnet_runtime.Collections.{StoredSets}
use vscode_dotnet_runtime.Install.{
  DotnetInstall, get_assumed_install_info, is_equivalent_installation,
}

-- `string | null`
abbrev pub InstallOwner : Type 0
InstallOwner = Option Text

pub record InstallRecord : Type 0 where
  pub dotnet_install : DotnetInstall
  pub installing_extensions : List InstallOwner

-- What may be stored: a legacy id; a record whose install has an `installKey` (which stands here in
-- the field `install_id`); a record with neither key nor id; a present record, whose owners may be
-- no array.
pub data InstallRecordOrStr : Type 0 where
  legacy : Text → InstallRecordOrStr
  with_key : DotnetInstall → List InstallOwner → InstallRecordOrStr
  without_id : InstallRecordOrStr
  current : DotnetInstall → Option (List InstallOwner) → InstallRecordOrStr

-- The values of `extensionState` under 'installed' and 'dotnet.returnedInstallDirectories'.
pub record ExtensionState : Type 0 where
  pub installed : List InstallRecordOrStr
  pub sessions : StoredSets

abbrev pub to_stored : InstallRecord → InstallRecordOrStr
to_stored r = current r.dotnet_install (some r.installing_extensions)

abbrev owners_or_none : Option (List InstallOwner) → List InstallOwner
owners_or_none none = []
owners_or_none (some owners) = owners

-- `x === y` on owners.
unfoldable pub same_owner : InstallOwner → InstallOwner → Bool
same_owner none none = true
same_owner (some a) (some b) = a === b
same_owner _ _ = false

-- `owners.includes(owner)`
unfoldable pub has_owner : InstallOwner → List InstallOwner → Bool
unfolding same_owner
has_owner o [] = false
has_owner o (x ∷ xs) = same_owner x o || has_owner o xs

module _ (default_architecture : Text) where
  abbrev converted : InstallRecordOrStr → List InstallRecord → List InstallRecord
  converted (legacy id) rest =
      record {
        dotnet_install = get_assumed_install_info default_architecture id none;
        installing_extensions = none ∷ [];
      }
      ∷ rest
  converted (with_key install owners) rest =
      record { dotnet_install = install; installing_extensions = owners } ∷ rest
  converted without_id rest = rest
  converted (current install owners) rest =
      record { dotnet_install = install; installing_extensions = owners_or_none owners } ∷ rest

  -- The loop of `getExistingInstalls`.
  unfoldable pub convert_installs : List InstallRecordOrStr → List InstallRecord
  convert_installs [] = []
  convert_installs (x ∷ xs) = converted x (convert_installs xs)

  unfoldable pub get_existing_installs : ExtensionState → List InstallRecord × ExtensionState
  unfolding convert_installs
  get_existing_installs s =
      let installs = convert_installs s.installed in
      (installs, record s { installed = map to_stored installs })

-- The records whose install is equivalent to the given one.
abbrev pub equivalent_to : DotnetInstall → InstallRecord → Bool
equivalent_to install x = is_equivalent_installation x.dotnet_install install
