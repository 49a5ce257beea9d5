-- ===== src/Tracker/Ownership.antt =====
-- Ownership over several calls of InstallTrackerSingleton.ts: what is tracked twice, and what a
-- removal undoes.
use mathlib.Core.Path.{subst}
use vscode_dotnet_runtime.Prelude.{
  ◌≡◌, ap, sym, ◌∙◌, Bool, true, false, ◌&&◌, ◌||◌, Bool-cases, inl, inr, Option, none, some, List,
  [], arith, if◌then◌else◌, keep, any_of, ok, type_error,
}
use vscode_dotnet_runtime.Text.{Text, ◌===◌, ===_self, ===_iff}
use vscode_dotnet_runtime.Collections.{has}
use vscode_dotnet_runtime.Collections.Sets.{Distinct}
use vscode_dotnet_runtime.Install.{DotnetInstall}
use vscode_dotnet_runtime.Tracker.State.{InstallOwner, ExtensionState, has_owner, equivalent_to}
use vscode_dotnet_runtime.Tracker.Installs.{
  add_owner, add_owners_from, is_named, report_successful_uninstall,
  remove_version_from_extension_state, add_version_to_extension_state, add_owners,
  uninstall_all_records,
}
use vscode_dotnet_runtime.Tracker.OwnerSets.{
  same_owner_iff, has_owner-add_owner, has_owner-add_owners_from, has_owner-keep_named, keep_others,
  keep_all,
}
use vscode_dotnet_runtime.Tracker.Records.{
  any-equivalent, owners_in_absent, owners_in, ids, or_empty, change_some, ids-replace,
  owners_in-update_first, ids-update_first, with_owner-Distinct, keep-Distinct,
}
use vscode_dotnet_runtime.Tracker.Owners.{
  registered, owners_of, IsTracked, registered-add, registered-uninstall_all, registered-report,
  registered-force, registered-remove, remaining, registered-add_owners, joined, add_version_owners,
  remove_version_owners,
}

module _ (default_architecture : Text) where
  abbrev pub is_some : Option (List InstallOwner) → Bool
  is_some none = false
  is_some (some _) = true

  owners-add_owners :
      (install : DotnetInstall) (new : List InstallOwner) (s : ExtensionState) (j : Text)
      → owners_of default_architecture j (add_owners default_architecture install new s) ≡ (
          if install.install_id === j
          then change_some (joined default_architecture new) (owners_of default_architecture j s)
          else owners_of default_architecture j s)
  owners-add_owners install new s j =
      elim (Bool-cases (has install.install_id (ids (registered default_architecture s)))) [
        | inl present ↦
            ap (owners_in j) (registered-add_owners default_architecture install new s)
            ∙ rw (any-equivalent install (registered default_architecture s), present)
                (owners_in-update_first install (joined default_architecture new) j
                  (registered default_architecture s))
        | inr absent ↦
            ap (owners_in j) (registered-add_owners default_architecture install new s)
            ∙ rw (any-equivalent install (registered default_architecture s), absent)
                (ground (
                  arith,
                  owners_in_absent install (registered default_architecture s) absent,
                  ===_iff install.install_id j,
                ))
      ]

  joined_members :
      (new : List InstallOwner) (o : InstallOwner) (old : Option (List InstallOwner))
      → has_owner o (or_empty (change_some (joined default_architecture new) old))
        ≡ (has_owner o (or_empty old) || (is_some old && (is_named o && has_owner o new)))
  unfolding has_owner
  joined_members new o none = ground arith
  joined_members new o (some os) = ground (
    arith,
    has_owner-add_owners_from o (add_owners_from [] os) (keep is_named new),
    has_owner-add_owners_from o [] os,
    has_owner-keep_named o new,
  )

  -- Who owns the install after owners were added to it.
  pub added_owner :
      (install : DotnetInstall) (new : List InstallOwner) (s : ExtensionState) (o : InstallOwner)
      → let id = install.install_id in
        has_owner o (
          or_empty
            (owners_of default_architecture id (add_owners default_architecture install new s)))
        ≡ (has_owner o (or_empty (owners_of default_architecture id s))
            || (is_some (owners_of default_architecture id s) && (is_named o && has_owner o new)))
  added_owner install new s o = ground (
    arith,
    owners-add_owners install new s install.install_id,
    ===_self install.install_id,
    joined_members new o (owners_of default_architecture install.install_id s),
  )

  -- Adding owners gives a tracked install the owners that are named and not empty, besides those
  -- that it has; it tracks nothing new, and no other id changes its owners.
  pub add_owners_members :
      (install : DotnetInstall) (new : List InstallOwner) (s : ExtensionState) (o : InstallOwner)
      (j : Text)
      → (install.install_id === j) ≡ false
      → let id = install.install_id in
        let after = add_owners default_architecture install new s in
        (has_owner o (or_empty (owners_of default_architecture id after)) ≡ (
          has_owner o (or_empty (owners_of default_architecture id s))
          || (is_some (owners_of default_architecture id s) && (is_named o && has_owner o new))))
        × (owners_of default_architecture j after ≡ owners_of default_architecture j s)
  add_owners_members install new s o j other =
      (added_owner install new s o, ground (arith, owners-add_owners install new s j))

  pub remove-IsTracked :
      (requester : Option Text) (install : DotnetInstall) (force : Bool) (s : ExtensionState)
      → IsTracked default_architecture s
      → IsTracked default_architecture
          (remove_version_from_extension_state default_architecture requester install force s)
  remove-IsTracked requester install true s h =
      subst Distinct (sym (ap ids (registered-force default_architecture requester install s)))
        (keep-Distinct _ (registered default_architecture s) h)
  remove-IsTracked requester install false s h =
      subst Distinct
        (sym (
          ap ids (registered-remove default_architecture requester install s)
          ∙ ids-replace install (remaining default_architecture requester install s)
              (registered default_architecture s)))
        h

  add_owners-IsTracked :
      (install : DotnetInstall) (new : List InstallOwner) (s : ExtensionState)
      → IsTracked default_architecture s
      → IsTracked default_architecture (add_owners default_architecture install new s)
  add_owners-IsTracked install new s h =
      elim (Bool-cases (any_of (equivalent_to install) (registered default_architecture s))) [
        | inl found ↦
            subst Distinct
              (sym (
                ap ids (registered-add_owners default_architecture install new s)
                ∙ rw found (
                    ids-update_first install (joined default_architecture new)
                      (registered default_architecture s))))
              h
        | inr missing ↦
            subst Distinct
              (sym (ap ids (registered-add_owners default_architecture install new s) ∙ rw missing))
              h
      ]

  -- No operation tracks an id twice, if none was.
  pub operations-IsTracked :
      (this_session path : Text) (requester : Option Text) (install : DotnetInstall) (force : Bool)
      (new : List InstallOwner) (s s' : ExtensionState)
      → IsTracked default_architecture s
      → add_version_to_extension_state default_architecture this_session requester install path
          (ok tt)
          s
        ≡ ok s'
      → IsTracked default_architecture s'
        × IsTracked default_architecture
            (remove_version_from_extension_state default_architecture requester install force s)
        × IsTracked default_architecture
            (report_successful_uninstall default_architecture install s)
        × IsTracked default_architecture (add_owners default_architecture install new s)
        × IsTracked default_architecture (uninstall_all_records default_architecture s)
  operations-IsTracked this_session path requester install force new s s' h e = (
    subst Distinct
        (sym
          (ap ids (registered-add default_architecture this_session path requester install s s' e)))
        (with_owner-Distinct install requester (registered default_architecture s) h),
    remove-IsTracked requester install force s h,
    subst Distinct (sym (ap ids (registered-report default_architecture install s)))
        (keep-Distinct _ (registered default_architecture s) h),
    add_owners-IsTracked install new s h,
    subst Distinct (sym (ap ids (registered-uninstall_all default_architecture s)))
        (keep-Distinct _ (registered default_architecture s) h),
  )

  pub added_owners :
      (this_session path : Text) (requester : Option Text) (install : DotnetInstall)
      (s s' : ExtensionState)
      → add_version_to_extension_state default_architecture this_session requester install path
          (ok tt)
          s
        ≡ ok s'
      → owners_of default_architecture install.install_id s'
        ≡ some
            (add_owner requester (or_empty (owners_of default_architecture install.install_id s)))
  added_owners this_session path requester install s s' e =
      let (t, done, owners) =
        (add_version_owners default_architecture this_session requester install path s
          type_error).1 in
      let same : t ≡ s' = cc in
      rw (← same) (owners install.install_id ∙ rw (===_self install.install_id))

  -- A requester that tracks an install which it did not own, and then removes it without force,
  -- leaves the install with the owners that it had (and tracked without owners if it was not).
  pub track_untrack :
      (this_session path requester : Text) (install : DotnetInstall) (s s' : ExtensionState)
      → has_owner (some requester) (or_empty (owners_of default_architecture install.install_id s))
        ≡ false
      → add_version_to_extension_state default_architecture this_session
          (some requester)
          install
          path
          (ok tt)
          s
        ≡ ok s'
      → owners_of default_architecture install.install_id (
          remove_version_from_extension_state default_architecture
            (some requester)
            install
            false
            s')
        ≡ some (or_empty (owners_of default_architecture install.install_id s))
  unfolding add_version_to_extension_state
  track_untrack this_session path requester install s s' h e = ground (
    arith,
    remove_version_owners default_architecture (some requester) install false s' install.install_id,
    added_owners this_session path (some requester) install s s' e,
    ===_self install.install_id,
    keep_others requester (or_empty (owners_of default_architecture install.install_id s)) h,
  )

  -- A caller without an extension id that tracks an install is recorded as null, and removing the
  -- install as the same caller leaves null among the owners.
  pub undefined_requester_stays :
      (this_session path : Text) (install : DotnetInstall) (s s' : ExtensionState)
      → add_version_to_extension_state default_architecture this_session none install path (ok tt) s
        ≡ ok s'
      → has_owner none (
          or_empty (
            owners_of default_architecture install.install_id
              (remove_version_from_extension_state default_architecture none install false s')))
        ≡ true
  undefined_requester_stays this_session path install s s' e = ground (
    arith,
    remove_version_owners default_architecture none install false s' install.install_id,
    added_owners this_session path none install s s' e,
    ===_self install.install_id,
    keep_all (add_owner none (or_empty (owners_of default_architecture install.install_id s))),
    has_owner-add_owner none none (or_empty (owners_of default_architecture install.install_id s)),
    same_owner_iff none none,
  )
