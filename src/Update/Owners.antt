-- ===== src/Update/Owners.antt =====
-- LocalInstallUpdateService.ts, the end of a group's turn: whom the latest install is handed to.
use vscode_dotnet_runtime.Prelude.{
  ◌≡◌, refl, ap, ◌∙◌, Bool, true, false, inl, inr, Bool-cases, map, keep, ◌&&◌, ◌||◌, not, none,
  some, List, [], ◌∷◌, arith, any_of,
}
use vscode_dotnet_runtime.Text.{Text, codes, ◌===◌, ===_iff}
use vscode_dotnet_runtime.Collections.{has, add}
use vscode_dotnet_runtime.Collections.Sets.{has-add}
use vscode_dotnet_runtime.Version.{is_set}
use vscode_dotnet_runtime.Install.{AcquireContext}
use vscode_dotnet_runtime.Tracker.State.{
  InstallOwner, InstallRecord, ExtensionState, has_owner, same_owner,
}
use vscode_dotnet_runtime.Tracker.Installs.{add_owners, is_named}
use vscode_dotnet_runtime.Tracker.Records.{or_empty}
use vscode_dotnet_runtime.Tracker.Owners.{owners_of}
use vscode_dotnet_runtime.Tracker.Ownership.{added_owner}
use vscode_dotnet_runtime.Update.{
  owners_of_install, owners_of_collection, get_all_non_user_owners_of_collection, latest_from,
  uninstall_context, uninstall_outdated, finish_group,
}

-- An owner that is neither empty nor the user.
abbrev pub is_extension : Text → Bool
is_extension o = is_set o && not (o === codes "user")

named_extension :
    (o : Text) (b h : Bool)
    → (h || (true && (is_named (some o) && (is_extension o && b)))) ≡ (h || (is_extension o && b))
named_extension [] b h = ground arith
named_extension (x ∷ xs) b h = ground arith

module _ (o : Text) where
  has-owners_of_install :
      (set : List Text) (owners : List InstallOwner)
      → has o (owners_of_install set owners)
        ≡ (has o set || (is_extension o && has_owner (some o) owners))
  unfolding owners_of_install has_owner same_owner
  has-owners_of_install set [] = ground arith
  has-owners_of_install set (none ∷ rest) = has-owners_of_install set rest
  has-owners_of_install set (some p ∷ rest) = ground (
    arith,
    has-owners_of_install (add p set) rest,
    has-owners_of_install set rest,
    has-add p o set,
    ===_iff p o,
  )

  has-owners_of_collection :
      (set : List Text) (installs : List InstallRecord)
      → has o (owners_of_collection set installs) ≡ (
          has o set
          || (is_extension o && any_of (λ r. has_owner (some o) r.installing_extensions) installs))
  unfolding owners_of_collection
  has-owners_of_collection set [] = ground arith
  has-owners_of_collection set (r ∷ rs) = ground (
    arith,
    has-owners_of_collection (owners_of_install set r.installing_extensions) rs,
    has-owners_of_install set r.installing_extensions,
  )

  -- The owners that are collected.
  has-collected :
      (installs : List InstallRecord)
      → has o (get_all_non_user_owners_of_collection installs)
        ≡ (is_extension o && any_of (λ r. has_owner (some o) r.installing_extensions) installs)
  unfolding get_all_non_user_owners_of_collection has
  has-collected installs = has-owners_of_collection [] installs

  has_owner-map-some : (xs : List Text) → has_owner (some o) (map some xs) ≡ has o xs
  unfolding has_owner same_owner has
  has_owner-map-some [] = refl
  has_owner-map-some (x ∷ xs) = ground (arith, has_owner-map-some xs, ===_iff o x, ===_iff x o)

  module _ (current_architecture : Text)
      (uninstall_action : AcquireContext → ExtensionState → ExtensionState) where
    -- The uninstall of an install of another version keeps the owners of an id.
    abbrev KeepsOwners : Text → Text → Type 0
    KeepsOwners version id =
        (r : InstallRecord) (t : ExtensionState)
        → (r.dotnet_install.version === version) ≡ false
        → owners_of current_architecture id (uninstall_action (uninstall_context r) t)
          ≡ owners_of current_architecture id t

    uninstall_outdated-keeps :
        (install_action : AcquireContext → ExtensionState → ExtensionState × Bool)
        (version id : Text) (rs : List InstallRecord) (s : ExtensionState)
        → KeepsOwners version id
        → owners_of current_architecture id (
            uninstall_outdated current_architecture install_action uninstall_action
              (keep (λ r. not (r.dotnet_install.version === version)) rs)
              s)
          ≡ owners_of current_architecture id s
    unfolding uninstall_outdated
    uninstall_outdated-keeps install_action version id [] s kept = refl
    uninstall_outdated-keeps install_action version id (r ∷ rs) s kept =
        elim (Bool-cases (r.dotnet_install.version === version)) [
          | inl same ↦ rw same (uninstall_outdated-keeps install_action version id rs s kept)
          | inr other ↦ rw other (
              uninstall_outdated-keeps install_action version id rs
                (uninstall_action (uninstall_context r) s) kept
              ∙ kept r s other)
        ]

    -- When a group's turn ends, where the latest of the installs that are now in the group is
    -- tracked with the owners `old`, and where the uninstall of an install of another version keeps
    -- the owners of the latest, a named owner owns the latest exactly when it is one of `old`, or it
    -- owns an install of the group as it was before, is not empty and is not the user.
    pub handed_over :
        (install_action : AcquireContext → ExtensionState → ExtensionState × Bool)
        (installs : List InstallRecord) (first : InstallRecord) (more : List InstallRecord)
        (old : List InstallOwner) (s : ExtensionState)
        → let latest = (latest_from first (first ∷ more)).dotnet_install in
          owners_of current_architecture latest.install_id s ≡ some old
          → ((r : InstallRecord) (t : ExtensionState)
              → (r.dotnet_install.version === latest.version) ≡ false
              → owners_of current_architecture latest.install_id
                  (uninstall_action (uninstall_context r) t)
                ≡ owners_of current_architecture latest.install_id t)
          → has_owner (some o) (
              or_empty (
                owners_of current_architecture latest.install_id
                  (finish_group current_architecture install_action uninstall_action installs
                    (first ∷ more)
                    s).0))
            ≡ (has_owner (some o) old
                || (is_extension o
                    && any_of (λ r. has_owner (some o) r.installing_extensions) installs))
    unfolding finish_group
    handed_over install_action installs first more old s tracked kept =
        let latest = (latest_from first (first ∷ more)).dotnet_install in
        let new = map some (get_all_non_user_owners_of_collection installs) in
        let owned = add_owners current_architecture latest new s in
        ap (λ os. has_owner (some o) (or_empty os))
          (uninstall_outdated-keeps install_action latest.version latest.install_id installs owned
            kept)
        ∙ added_owner current_architecture latest new s (some o)
        ∙ rw
            (
              tracked,
              has_owner-map-some (get_all_non_user_owners_of_collection installs),
              has-collected installs,
            )
            (named_extension o (any_of (λ r. has_owner (some o) r.installing_extensions) installs)
              (has_owner (some o) old))
