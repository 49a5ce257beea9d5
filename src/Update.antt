-- ===== src/Update.antt =====
-- vscode-dotnet-runtime-library/src/Acquisition/LocalInstallUpdateService.ts: the automatic update of
-- local runtimes. Acquiring and uninstalling are parameters: what each does to the tracker's state,
-- and, for acquiring, whether it succeeds. Times are milliseconds; `current_architecture` is
-- `defaultArchitecture()`.
pub mod Owners
pub mod Latest
use vscode_dotnet_runtime.Prelude.{
  ℕ, ◌+◌, ◌*◌, Bool, true, false, ◌&&◌, ◌||◌, not, Option, none, some, List, [], ◌∷◌, ◌++◌, leb,
  ltb, ◌==◌, if◌then◌else◌, length, get_elem?, get_or, keep, map,
}
use vscode_dotnet_runtime.Text.{Text, codes, ◌===◌, split}
use vscode_dotnet_runtime.Text.Number.{JsNumber, less_or_equal, to_number}
use vscode_dotnet_runtime.Collections.{add}
use vscode_dotnet_runtime.Version.{bad_version, is_set, parts, get_major_minor_from_valid_version}
use vscode_dotnet_runtime.Install.{
  DotnetInstallMode, sdk, local, Architecture, null, undefined, named, AcquireContext, mode_name,
  same_mode,
}
use vscode_dotnet_runtime.Tracker.State.{
  InstallOwner, InstallRecord, ExtensionState, get_existing_installs,
}
use vscode_dotnet_runtime.Tracker.Installs.{add_owners}

pub record InstallGroup : Type 0 where
  pub mode : DotnetInstallMode
  pub architecture : Text
  pub major_minor : Text

abbrev one_day_ms : ℕ
one_day_ms = 24 * 60 * 60 * 1000

-- The condition of `checkForUpdates`.
unfoldable pub update_is_due : ℕ → ℕ → ℕ → Bool
update_is_due delay_ms last_update_ms now_ms =
    delay_ms == 0 || leb (last_update_ms + one_day_ms) now_ms

abbrev pub or_current : Architecture → Text → Text
or_current null current = current
or_current undefined current = current
or_current (named a) current = if is_set a then a else current

abbrev pub group_key : InstallGroup → Text
group_key g = mode_name g.mode ++ b'|' ∷ (g.architecture ++ b'|' ∷ g.major_minor)

-- `set` for a key that is new, `push` for one that is there.
unfoldable pub into_group :
    InstallGroup
    → InstallRecord
    → List (InstallGroup × List InstallRecord)
    → List (InstallGroup × List InstallRecord)
unfolding ◌===◌
into_group g r [] = (g, r ∷ []) ∷ []
into_group g r ((h, rs) ∷ rest) =
    let later = into_group g r rest in
    if group_key h === group_key g then (h, rs ++ r ∷ []) ∷ rest else (h, rs) ∷ later

abbrev pub group_of : Text → InstallRecord → InstallGroup
group_of current_architecture r = record {
  mode = r.dotnet_install.install_mode;
  architecture = or_current r.dotnet_install.architecture current_architecture;
  major_minor = get_major_minor_from_valid_version r.dotnet_install.version;
}

-- The loop of `getInstallGroups`.
unfoldable pub grouped_from :
    Text
    → List (InstallGroup × List InstallRecord)
    → List InstallRecord
    → List (InstallGroup × List InstallRecord)
unfolding into_group ◌===◌
grouped_from current groups [] = groups
grouped_from current groups (r ∷ rs) =
    let g = group_of current r in
    grouped_from current
      (if g.architecture === current && not (g.major_minor === bad_version)
        then into_group g r groups
        else groups)
      rs

abbrev is_local_runtime : InstallRecord → Bool
is_local_runtime r =
    not (same_mode r.dotnet_install.install_mode sdk) && not r.dotnet_install.is_global

unfoldable pub get_install_groups :
    Text → List InstallRecord → List (InstallGroup × List InstallRecord)
unfolding grouped_from
get_install_groups current installs = grouped_from current [] (keep is_local_runtime installs)

-- The inner loop of `getAllNonUserOwnersOfCollection`, and the outer one.
unfoldable pub owners_of_install : List Text → List InstallOwner → List Text
unfolding ◌===◌
owners_of_install set [] = set
owners_of_install set (none ∷ rest) = owners_of_install set rest
owners_of_install set (some o ∷ rest) =
    owners_of_install (if is_set o && not (o === codes "user") then add o set else set) rest

unfoldable pub owners_of_collection : List Text → List InstallRecord → List Text
unfolding owners_of_install
owners_of_collection set [] = set
owners_of_collection set (r ∷ rs) =
    owners_of_collection (owners_of_install set r.installing_extensions) rs

unfoldable pub get_all_non_user_owners_of_collection : List InstallRecord → List Text
unfolding owners_of_collection
get_all_non_user_owners_of_collection installs = owners_of_collection [] installs

-- `Number(parts[2].split('-')[0])`, where there is a third part.
unfoldable pub patch_number : Text → Option JsNumber
patch_number version = elim (get_elem? (parts version) 2) [
  | none ↦ none
  | some third ↦ some (to_number (get_or (split b'-' third) 0 []))
]

-- `a > b` on the patches; false if one is missing.
abbrev pub exceeds : Option JsNumber → Option JsNumber → Bool
exceeds none b = false
exceeds (some a) none = false
exceeds (some a) (some b) = less_or_equal b a && not (less_or_equal a b)

abbrev pub later_of : InstallRecord → InstallRecord → InstallRecord
later_of latest r =
    if exceeds (patch_number r.dotnet_install.version) (patch_number latest.dotnet_install.version)
    then r
    else latest

-- The loop that finds the latest install.
unfoldable pub latest_from : InstallRecord → List InstallRecord → InstallRecord
latest_from latest [] = latest
latest_from latest (r ∷ rs) = latest_from (later_of latest r) rs

abbrev pub in_group : Text → InstallGroup → InstallRecord → Bool
in_group current g r =
    same_mode r.dotnet_install.install_mode g.mode
    && or_current r.dotnet_install.architecture current === g.architecture
    && get_major_minor_from_valid_version r.dotnet_install.version === g.major_minor

-- StringConstants.ts `AUTOMATIC_UPDATE_EXTENSION_ID`
abbrev automatic_update_extension_id : Text
automatic_update_extension_id = codes "dotnet-runtime-library"

abbrev update_context : InstallGroup → AcquireContext
update_context g = record {
  version = g.major_minor;
  requesting_extension_id = some automatic_update_extension_id;
  install_type = some local;
  architecture = named g.architecture;
  mode = g.mode;
}

abbrev pub uninstall_context : InstallRecord → AcquireContext
uninstall_context r = record {
  version = r.dotnet_install.version;
  requesting_extension_id = some automatic_update_extension_id;
  install_type = some local;
  architecture = r.dotnet_install.architecture;
  mode = r.dotnet_install.install_mode;
}

-- What `automaticUpdate` leaves: the tracker's state, whether a group was processed, and whether
-- an acquisition threw, which ends the update.
pub record Outcome : Type 0 where
  pub state : ExtensionState
  pub processed_group : Bool
  pub threw : Bool

module _ (current_architecture : Text)
    (install_action : AcquireContext → ExtensionState → ExtensionState × Bool)
    (uninstall_action : AcquireContext → ExtensionState → ExtensionState) where
  -- The loop over the outdated installs; an error of `uninstallAction` is caught.
  unfoldable pub uninstall_outdated : List InstallRecord → ExtensionState → ExtensionState
  uninstall_outdated [] s = s
  uninstall_outdated (r ∷ rs) s = uninstall_outdated rs (uninstall_action (uninstall_context r) s)

  -- The rest of a group's turn, from the installs that are now in the group: whether it was
  -- processed, and the state.
  unfoldable pub finish_group :
      List InstallRecord → List InstallRecord → ExtensionState → ExtensionState × Bool
  unfolding latest_from get_all_non_user_owners_of_collection uninstall_outdated ◌===◌
  finish_group installs [] s = (s, false)
  finish_group installs (first ∷ more) s =
      let latest = latest_from first (first ∷ more) in
      let owners = map some (get_all_non_user_owners_of_collection installs) in
      let owned = add_owners current_architecture latest.dotnet_install owners s in
      let outdated =
        keep (λ r. not (r.dotnet_install.version === latest.dotnet_install.version)) installs in
      (uninstall_outdated outdated owned, true)

  -- The loop over the groups.
  unfoldable pub update_groups :
      List (InstallGroup × List InstallRecord) → ExtensionState → Bool → Outcome
  unfolding finish_group get_existing_installs ◌===◌
  update_groups [] s processed = record { state = s; processed_group = processed; threw = false }
  update_groups ((g, installs) ∷ rest) s processed =
      let (acquired, succeeded) = install_action (update_context g) s in
      let (managed, read) = get_existing_installs current_architecture acquired in
      let (finished, done) =
        finish_group installs (keep (in_group current_architecture g) managed) read in
      let later = update_groups rest finished (processed || done) in
      if succeeded
      then later
      else record { state = acquired; processed_group = processed; threw = true }

  -- `automaticUpdate`: the tracker's state, and the time of the last update.
  unfoldable pub automatic_update : Bool → ℕ → ℕ → ExtensionState → ExtensionState × ℕ
  unfolding get_install_groups update_groups get_existing_installs
  automatic_update is_online now_ms last_update_ms s =
      let (existing, read) = get_existing_installs current_architecture s in
      let outcome = update_groups (get_install_groups current_architecture existing) read false in
      if not is_online then (s, last_update_ms) else (
        outcome.state,
        if outcome.processed_group && not outcome.threw then now_ms else last_update_ms,
      )

  -- `checkForUpdates`
  unfoldable pub check_for_updates : ℕ → Bool → ℕ → ℕ → ExtensionState → ExtensionState × ℕ
  unfolding automatic_update update_is_due
  check_for_updates delay_ms is_online now_ms last_update_ms s =
      if update_is_due delay_ms last_update_ms now_ms
      then automatic_update is_online now_ms last_update_ms s
      else (s, last_update_ms)
