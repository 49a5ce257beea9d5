-- ===== src/Tracker/Dependents.antt =====
-- InstallTrackerSingleton.ts `installHasNoRegisteredDependentsBesidesId`: when an install has no
-- registered dependents.
use vscode_dotnet_runtime.Prelude.{
  ℕ, ◌≡◌, Bool, true, false, ◌&&◌, ◌||◌, Bool-cases, inl, inr, Option, none, some, List, [], ◌∷◌,
  arith, keep, length, ◌==◌,
}
use vscode_dotnet_runtime.Text.{Text, codes}
use vscode_dotnet_runtime.Collections.{has}
use vscode_dotnet_runtime.Install.{DotnetInstall}
use vscode_dotnet_runtime.Tracker.State.{
  InstallOwner, ExtensionState, same_owner, has_owner, equivalent_to,
}
use vscode_dotnet_runtime.Tracker.Installs.{
  only_owner, first_owners, install_has_no_registered_dependents_besides_id,
}
use vscode_dotnet_runtime.Tracker.Records.{
  owners_in_absent, owners_in_present, keep_absent, keep_one, ids, first_owners-keep,
}
use vscode_dotnet_runtime.Tracker.Owners.{registered, owners_of, IsTracked}

-- What "no registered dependents" means for the owners of an install: it is not tracked, or has
-- no owner, or its only owner is the one to ignore, or the user where that is allowed.
abbrev pub no_dependents : Bool → Text → Option (List InstallOwner) → Bool
no_dependents allow ignore none = true
no_dependents allow ignore (some []) = true
no_dependents allow ignore (some (o ∷ [])) =
    same_owner o (some ignore) || allow && same_owner o (some (codes "user"))
no_dependents allow ignore (some (o ∷ p ∷ os)) = false

module _ (default_architecture : Text) where
  one_record :
      (allow : Bool) (ignore : Text) (n : ℕ) (os : List InstallOwner)
      → n ≡ 1
      → (n == 0
          || n == 1 && only_owner (λ o. same_owner o (some ignore)) os
          || length os == 0
          || allow && length os == 1 && has_owner (some (codes "user")) os)
        ≡ no_dependents allow ignore (some os)
  unfolding has_owner
  one_record allow ignore n [] e = ground arith
  one_record allow ignore n (o ∷ []) e = ground arith
  one_record allow ignore n (o ∷ p ∷ os) e = ground arith

  -- Where no id is tracked twice, the check of the registered dependents holds exactly if the
  -- install is not tracked, or has no owner, or its only owner is the one to ignore, or the user
  -- where that is allowed.
  pub no_registered_dependents_iff :
      (install : DotnetInstall) (allow : Bool) (ignore : Text) (s : ExtensionState)
      → IsTracked default_architecture s
      → (install_has_no_registered_dependents_besides_id default_architecture install allow ignore
          s).0
        ≡ no_dependents allow ignore (owners_of default_architecture install.install_id s)
  unfolding install_has_no_registered_dependents_besides_id
  no_registered_dependents_iff install allow ignore s h =
      elim (Bool-cases (has install.install_id (ids (registered default_architecture s)))) [
        | inl present ↦ ground (
          arith,
          one_record allow ignore
              (length (keep (equivalent_to install) (registered default_architecture s)))
              (first_owners (keep (equivalent_to install) (registered default_architecture s)))
              (keep_one install (registered default_architecture s) h present),
          first_owners-keep install (registered default_architecture s),
          owners_in_present install (registered default_architecture s) present,
        )
        | inr absent ↦ ground (
          arith,
          keep_absent install (registered default_architecture s) absent,
          owners_in_absent install (registered default_architecture s) absent,
        )
      ]
