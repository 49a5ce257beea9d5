-- ===== src/Tracker/Owners.antt =====
-- The tracker as a map from install ids to owners: what each operation of
-- InstallTrackerSingleton.ts does to that map.
use vscode_dotnet_runtime.Prelude.{
  ◌≡◌, refl, ap, ◌∙◌, Bool, true, false, not, Bool-cases, inl, inr, Option, none, some, List, [],
  map, arith, if◌then◌else◌, keep, any_of, ok, throw, Error,
}
use vscode_dotnet_runtime.Text.{Text, ◌===◌, ===_iff}
use vscode_dotnet_runtime.Collections.Sets.{Distinct}
use vscode_dotnet_runtime.Install.{DotnetInstall}
use vscode_dotnet_runtime.Tracker.State.{
  InstallOwner, InstallRecord, ExtensionState, get_existing_installs, equivalent_to,
}
use vscode_dotnet_runtime.Tracker.Sessions.{mark_install_as_in_use_with_install_lock}
use vscode_dotnet_runtime.Tracker.Installs.{
  store, first_owners, update_first, differs_from, add_owner, add_owners_from, is_named, with_owner,
  report_successful_uninstall, remove_version_from_extension_state, add_version_to_extension_state,
  add_owners, uninstall_all_records,
}
use vscode_dotnet_runtime.Tracker.Records.{
  replaced, changed, owners_in, ids, or_empty, change_some, convert_installs-to_stored,
  first_owners-keep, owners_in-drop, owners_in-replace, owners_in-with_owner,
}

module _ (default_architecture : Text) where
  abbrev pub registered : ExtensionState → List InstallRecord
  registered s = (get_existing_installs default_architecture s).0

  -- The owners of the install with an id, if one is tracked.
  abbrev pub owners_of : Text → ExtensionState → Option (List InstallOwner)
  owners_of id s = owners_in id (registered s)

  -- No id is tracked twice.
  abbrev pub IsTracked : ExtensionState → Type 0
  IsTracked s = Distinct (ids (registered s))

  pub registered-store :
      (rs : List InstallRecord) (s : ExtensionState) → registered (store rs s) ≡ rs
  unfolding get_existing_installs
  registered-store rs s = convert_installs-to_stored default_architecture rs

  pub registered-again :
      (s : ExtensionState)
      → registered (get_existing_installs default_architecture s).1 ≡ registered s
  unfolding get_existing_installs
  registered-again s = convert_installs-to_stored default_architecture (registered s)

  -- Reading the installs brings the stored records to their present form once: a second read gives
  -- the same installs and changes nothing.
  pub get_existing_installs_idempotent :
      (s : ExtensionState)
      → get_existing_installs default_architecture (get_existing_installs default_architecture s).1
        ≡ get_existing_installs default_architecture s
  unfolding get_existing_installs
  get_existing_installs_idempotent s =
      rw (convert_installs-to_stored default_architecture (registered s))

  -- Tracking an install fails as its validation fails. Otherwise its requester (null if undefined)
  -- is added to the owners of its id, which is new or not, and no other id changes its owners.
  pub add_version_owners :
      (this_session : Text) (requester : Option Text) (install : DotnetInstall) (path : Text)
      (s : ExtensionState) (e : Error)
      → (add_version_to_extension_state default_architecture this_session requester install path
            (throw e)
            s
          ≡ throw e)
        × ((s' : ExtensionState) × (add_version_to_extension_state default_architecture this_session
                requester install path
                (ok tt)
                s
              ≡ ok s')
            × ((j : Text)
                → owners_of j s' ≡ (
                    if install.install_id === j
                    then some (add_owner requester (or_empty (owners_of j s)))
                    else owners_of j s)))
  unfolding add_version_to_extension_state
  add_version_owners this_session requester install path s e =
      let rs = with_owner requester install (registered s) in
      (
        refl,
        (
          store rs (mark_install_as_in_use_with_install_lock path this_session s),
          refl,
          λ j.
              ap (owners_in j) (registered-store rs s)
              ∙ owners_in-with_owner install requester j (registered s),
        ),
      )

  pub registered-report :
      (install : DotnetInstall) (s : ExtensionState)
      → registered (report_successful_uninstall default_architecture install s)
        ≡ keep (λ x. not (equivalent_to install x)) (registered s)
  unfolding report_successful_uninstall
  registered-report install s =
      registered-store (keep (λ x. not (equivalent_to install x)) (registered s)) s

  pub registered-force :
      (requester : Option Text) (install : DotnetInstall) (s : ExtensionState)
      → registered
          (remove_version_from_extension_state default_architecture requester install true s)
        ≡ keep (λ x. not (equivalent_to install x)) (registered s)
  unfolding remove_version_from_extension_state
  registered-force requester install s =
      registered-report install (get_existing_installs default_architecture s).1
      ∙ ap (keep (λ x. not (equivalent_to install x))) (registered-again s)

  abbrev pub remaining : Option Text → DotnetInstall → ExtensionState → List InstallOwner
  remaining requester install s =
      keep (differs_from requester) (first_owners (keep (equivalent_to install) (registered s)))

  pub registered-remove :
      (requester : Option Text) (install : DotnetInstall) (s : ExtensionState)
      → registered
          (remove_version_from_extension_state default_architecture requester install false s)
        ≡ map (replaced install (remaining requester install s)) (registered s)
  unfolding remove_version_from_extension_state
  registered-remove requester install s =
      registered-store (map (replaced install (remaining requester install s)) (registered s)) s

  abbrev pub joined : List InstallOwner → List InstallOwner → List InstallOwner
  joined new os = add_owners_from (add_owners_from [] os) (keep is_named new)

  pub registered-add_owners :
      (install : DotnetInstall) (new : List InstallOwner) (s : ExtensionState)
      → registered (add_owners default_architecture install new s) ≡ (
          if any_of (equivalent_to install) (registered s)
          then update_first install (changed install (joined new)) (registered s)
          else registered s)
  unfolding add_owners
  registered-add_owners install new s =
      elim (Bool-cases (any_of (equivalent_to install) (registered s))) [
        | inl found ↦ rw found (
            registered-store (update_first install (changed install (joined new)) (registered s)) s)
        | inr missing ↦ rw missing (registered-again s)
      ]

  pub registered-add :
      (this_session path : Text) (requester : Option Text) (install : DotnetInstall)
      (s s' : ExtensionState)
      → add_version_to_extension_state default_architecture this_session requester install path
          (ok tt)
          s
        ≡ ok s'
      → registered s' ≡ with_owner requester install (registered s)
  unfolding add_version_to_extension_state
  registered-add this_session path requester install s s' e =
      let t =
        store (with_owner requester install (registered s))
          (mark_install_as_in_use_with_install_lock path this_session s) in
      let same : t ≡ s' = cc in
      rw (← same) (registered-store (with_owner requester install (registered s)) s)

  pub registered-uninstall_all :
      (s : ExtensionState)
      → registered (uninstall_all_records default_architecture s)
        ≡ keep (λ x. x.dotnet_install.is_global) (registered s)
  unfolding uninstall_all_records
  registered-uninstall_all s =
      registered-store (keep (λ x. x.dotnet_install.is_global) (registered s)) s

  -- Removing an install by force untracks its id. Otherwise the id, if it is tracked, keeps the
  -- owners that differ from the requester. No other id changes its owners.
  pub remove_version_owners :
      (requester : Option Text) (install : DotnetInstall) (force : Bool) (s : ExtensionState)
      (j : Text)
      → owners_of j
          (remove_version_from_extension_state default_architecture requester install force s)
        ≡ (if install.install_id === j
            then if force then none else change_some (keep (differs_from requester)) (owners_of j s)
            else owners_of j s)
  remove_version_owners requester install true s j =
      ap (owners_in j) (registered-force requester install s)
      ∙ owners_in-drop install j (registered s)
  remove_version_owners requester install false s j =
      ap (owners_in j) (registered-remove requester install s)
      ∙ owners_in-replace install (remaining requester install s) j (registered s)
      ∙ ground (arith, first_owners-keep install (registered s), ===_iff install.install_id j)
