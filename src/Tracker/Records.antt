-- ===== src/Tracker/Records.antt =====
-- The list of records as a map from install ids to owners, and what each change of the list does to
-- that map.
use mathlib.Core.Path.{subst}
use mathlib.Core.List.{map-append}
use vscode_dotnet_runtime.Prelude.{
  ◌≡◌, ◌≢◌, refl, ap, sym, Bool-cases, inl, inr, Bool, true, false, not, Option, none, some, List,
  [], ◌∷◌, ◌++◌, map, arith, if◌then◌else◌, keep, any_of, length,
}
use vscode_dotnet_runtime.Text.{Text, ◌===◌, ===_iff}
use vscode_dotnet_runtime.Collections.{has}
use vscode_dotnet_runtime.Collections.Sets.{Distinct, Distinct-last}
use vscode_dotnet_runtime.Install.{DotnetInstall, is_equivalent_installation}
use vscode_dotnet_runtime.Tracker.State.{
  InstallOwner, InstallRecord, to_stored, convert_installs, equivalent_to,
}
use vscode_dotnet_runtime.Tracker.Installs.{first_owners, add_owner, update_first, with_owner}

-- The owners of the install with an id: those of its first record.
unfoldable pub owners_in : Text → List InstallRecord → Option (List InstallOwner)
owners_in id [] = none
owners_in id (r ∷ rs) =
    if r.dotnet_install.install_id === id then some r.installing_extensions else owners_in id rs

abbrev pub ids : List InstallRecord → List Text
ids rs = map (λ r. r.dotnet_install.install_id) rs

abbrev pub or_empty : Option (List InstallOwner) → List InstallOwner
or_empty none = []
or_empty (some os) = os

abbrev pub replace_some :
    List InstallOwner → Option (List InstallOwner) → Option (List InstallOwner)
replace_some os none = none
replace_some os (some _) = some os

abbrev pub change_some :
    (List InstallOwner → List InstallOwner)
    → Option (List InstallOwner)
    → Option (List InstallOwner)
change_some g none = none
change_some g (some os) = some (g os)

abbrev or_else :
    Option (List InstallOwner) → Option (List InstallOwner) → Option (List InstallOwner)
or_else none o = o
or_else (some os) o = some os

pub has-keep :
    (p : InstallRecord → Bool) (j : Text) (rs : List InstallRecord)
    → has j (ids rs) ≡ false
    → has j (ids (keep p rs)) ≡ false
unfolding has
has-keep p j [] h = refl
has-keep p j (r ∷ rs) h = ground (arith, has-keep p j rs)

pub convert_installs-to_stored :
    (default_architecture : Text) (rs : List InstallRecord)
    → convert_installs default_architecture (map to_stored rs) ≡ rs
unfolding convert_installs
convert_installs-to_stored da [] = refl
convert_installs-to_stored da (r ∷ rs) = ap (◌∷◌ r) (convert_installs-to_stored da rs)

module _ (install : DotnetInstall) where
  abbrev id : Text
  id = install.install_id

  pub any-equivalent :
      (rs : List InstallRecord) → any_of (equivalent_to install) rs ≡ has id (ids rs)
  unfolding has is_equivalent_installation
  any-equivalent [] = refl
  any-equivalent (r ∷ rs) = ground (arith, any-equivalent rs)

  pub owners_in_absent :
      (rs : List InstallRecord) → has id (ids rs) ≡ false → owners_in id rs ≡ none
  unfolding owners_in has
  owners_in_absent [] h = refl
  owners_in_absent (r ∷ rs) h = ground (arith, owners_in_absent rs)

  pub owners_in_present :
      (rs : List InstallRecord) → has id (ids rs) ≡ true → owners_in id rs ≢ none
  unfolding owners_in has
  owners_in_present [] h e = cc
  owners_in_present (r ∷ rs) h e = ground (arith, owners_in_present rs)

  owners_in_last :
      (j : Text) (os : List InstallOwner) (rs : List InstallRecord)
      → owners_in j (rs ++ record { dotnet_install = install; installing_extensions = os } ∷ [])
        ≡ or_else (owners_in j rs) (if id === j then some os else none)
  unfolding owners_in
  owners_in_last j os [] = refl
  owners_in_last j os (r ∷ rs) = ground (arith, owners_in_last j os rs)

  pub keep_absent :
      (rs : List InstallRecord) → has id (ids rs) ≡ false → keep (equivalent_to install) rs ≡ []
  unfolding has is_equivalent_installation
  keep_absent [] h = refl
  keep_absent (r ∷ rs) h = ground (arith, keep_absent rs)

  pub keep_one :
      (rs : List InstallRecord)
      → Distinct (ids rs)
      → has id (ids rs) ≡ true
      → length (keep (equivalent_to install) rs) ≡ 1
  unfolding has is_equivalent_installation
  keep_one [] d h = cc
  keep_one (r ∷ rs) d h =
      ground (arith, keep_one rs d.1, keep_absent rs, ===_iff r.dotnet_install.install_id id)

  pub first_owners-keep :
      (rs : List InstallRecord)
      → first_owners (keep (equivalent_to install) rs) ≡ or_empty (owners_in id rs)
  unfolding owners_in is_equivalent_installation
  first_owners-keep [] = refl
  first_owners-keep (r ∷ rs) = ground (arith, first_owners-keep rs)

  pub owners_in-drop :
      (j : Text) (rs : List InstallRecord)
      → owners_in j (keep (λ x. not (equivalent_to install x)) rs)
        ≡ (if id === j then none else owners_in j rs)
  unfolding owners_in is_equivalent_installation
  owners_in-drop j [] = ground arith
  owners_in-drop j (r ∷ rs) = ground (
    arith,
    owners_in-drop j rs,
    ===_iff r.dotnet_install.install_id id,
    ===_iff r.dotnet_install.install_id j,
    ===_iff id j,
  )

  module _ (owners : List InstallOwner) where
    abbrev pub replaced : InstallRecord → InstallRecord
    replaced x =
        if equivalent_to install x
        then record { dotnet_install = install; installing_extensions = owners }
        else x

    pub owners_in-replace :
        (j : Text) (rs : List InstallRecord)
        → owners_in j (map replaced rs)
          ≡ (if id === j then replace_some owners (owners_in j rs) else owners_in j rs)
    unfolding owners_in is_equivalent_installation
    owners_in-replace j [] = ground arith
    owners_in-replace j (r ∷ rs) = ground (
      arith,
      owners_in-replace j rs,
      ===_iff r.dotnet_install.install_id id,
      ===_iff r.dotnet_install.install_id j,
      ===_iff id j,
    )

    pub ids-replace : (rs : List InstallRecord) → ids (map replaced rs) ≡ ids rs
    unfolding is_equivalent_installation
    ids-replace [] = refl
    ids-replace (r ∷ rs) = ground (arith, ids-replace rs, ===_iff r.dotnet_install.install_id id)

  module _ (g : List InstallOwner → List InstallOwner) where
    abbrev pub changed : InstallRecord → InstallRecord
    changed r = record r { installing_extensions = g r.installing_extensions }

    pub owners_in-update_first :
        (j : Text) (rs : List InstallRecord)
        → owners_in j (update_first install changed rs)
          ≡ (if id === j then change_some g (owners_in j rs) else owners_in j rs)
    unfolding owners_in update_first is_equivalent_installation
    owners_in-update_first j [] = ground arith
    owners_in-update_first j (r ∷ rs) = ground (
      arith,
      owners_in-update_first j rs,
      ===_iff r.dotnet_install.install_id id,
      ===_iff r.dotnet_install.install_id j,
      ===_iff id j,
    )

    pub ids-update_first :
        (rs : List InstallRecord) → ids (update_first install changed rs) ≡ ids rs
    unfolding update_first
    ids-update_first [] = refl
    ids-update_first (r ∷ rs) = ground (arith, ids-update_first rs)

  -- Tracking an install adds the requester to its owners and leaves the others alone.
  pub owners_in-with_owner :
      (requester : Option Text) (j : Text) (rs : List InstallRecord)
      → owners_in j (with_owner requester install rs) ≡ (
          if id === j
          then some (add_owner requester (or_empty (owners_in j rs)))
          else owners_in j rs)
  unfolding with_owner
  owners_in-with_owner requester j rs = elim (Bool-cases (has id (ids rs))) [
    | inl present ↦
        rw (any-equivalent rs, present)
          (ground (
            arith,
            owners_in-update_first (add_owner requester) j rs,
            owners_in_present rs present,
            ===_iff id j,
          ))
    | inr absent ↦
        rw (any-equivalent rs, absent)
          (ground
            (arith, owners_in_last j (requester ∷ []) rs, owners_in_absent rs absent, ===_iff id j))
  ]

  pub with_owner-Distinct :
      (requester : Option Text) (rs : List InstallRecord)
      → Distinct (ids rs)
      → Distinct (ids (with_owner requester install rs))
  unfolding with_owner
  with_owner-Distinct requester rs d = elim (Bool-cases (has id (ids rs))) [
    | inl present ↦
        rw (any-equivalent rs, present)
          (subst Distinct (sym (ids-update_first (add_owner requester) rs)) d)
    | inr absent ↦
        rw (any-equivalent rs, absent) (rw (map-append _ rs _) (Distinct-last id (ids rs) absent d))
  ]

pub keep-Distinct :
    (p : InstallRecord → Bool) (rs : List InstallRecord)
    → Distinct (ids rs)
    → Distinct (ids (keep p rs))
keep-Distinct p [] d = tt
keep-Distinct p (r ∷ rs) d =
    ground (arith, keep-Distinct p rs d.1, has-keep p r.dotnet_install.install_id rs)
