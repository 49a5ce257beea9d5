-- ===== src/ExistingPath/Setting.antt =====
-- ExistingPathResolver.ts `getExistingPath`: which of the user's settings is the one for an extension.
use vscode_dotnet_runtime.Prelude.{
  ◌≡◌, ◌≢◌, refl, ap, ◌∙◌, not, every, ◌++◌, keep, true, Bool-cases, ◌⊎◌, inl, inr, Option, none,
  some, List, [], ◌∷◌,
}
use vscode_dotnet_runtime.Text.{Text, ◌===◌, ===_iff}
use vscode_dotnet_runtime.ExistingPath.{
  LocalExistingPath, ExistingPaths, given, first_path, get_existing_path,
}

pub given-some :
    (o : Option Text) (path : Text) → given o ≡ some path → (o ≡ some path) × (path ≢ [])
given-some none path e = cc
given-some (some []) path e = cc
given-some (some (c ∷ cs)) path e = (e, λ empty. let wrong = e ∙ ap some empty in cc)

-- No pair is that of the extension `id`.
abbrev pub IsWithout : Text → List LocalExistingPath → Type 0
IsWithout id ps = every (λ p. not (p.extension_id === id)) ps ≡ true

-- The first pair of the extension `id` has the path `setting`.
abbrev pub IsFirstPath : Text → List LocalExistingPath → Text → Type 0
IsFirstPath id ps setting =
    (before : List LocalExistingPath) × ((pair : LocalExistingPath) × ((after : List
          LocalExistingPath)
        × (ps ≡ before ++ (pair ∷ after))
        × (pair.extension_id ≡ id)
        × (pair.path ≡ setting)
        × IsWithout id before))

-- Nothing of the settings is for that extension alone: it is not named, or its name is empty, or it
-- has no pair.
abbrev pub HasNoPair : Option (List LocalExistingPath) → Option Text → Type 0
HasNoPair individualized extension_id =
    (extension_id ≡ none)
    ⊎ ((extension_id ≡ some [])
        ⊎ ((id : Text) × ((extension_id ≡ some id)
              × ((individualized ≡ none)
                  ⊎ ((ps : List LocalExistingPath) × ((individualized ≡ some ps)
                        × IsWithout id ps))))))

-- `setting` is the one for the extension: that of its first pair, or the shared one where it has none.
abbrev pub IsSettingFor : Option ExistingPaths → Option Text → Text → Type 0
IsSettingFor paths extension_id setting =
    (e : ExistingPaths) × ((paths ≡ some e)
      × (((id : Text) × ((ps : List LocalExistingPath) × ((extension_id ≡ some id)
                × (e.individualized_extension_paths ≡ some ps)
                × IsFirstPath id ps setting)))
          ⊎ ((e.shared_existing_path ≡ some setting)
              × (setting ≢ [])
              × HasNoPair e.individualized_extension_paths extension_id)))

first_of :
    (id : Text) (ps : List LocalExistingPath) (shared : Option Text) (setting : Text)
    → first_path (keep (λ p. p.extension_id === id) ps) shared ≡ some setting
    → IsFirstPath id ps setting ⊎ (IsWithout id ps × (given shared ≡ some setting))
first_of id [] shared setting h = inr (refl, h)
first_of id (p ∷ ps) shared setting h = elim (Bool-cases (p.extension_id === id)) [
  | inl same ↦ inl ([], (p, (ps, refl, (===_iff _ id).0 same, own (rw same at h), refl)))
  | inr other ↦ elim (first_of id ps shared setting (rw other at h)) [
    | inl (before, (pair, (after, e, its, path, without))) ↦
        inl (p ∷ before, (pair, (after, ap (λ xs. p ∷ xs) e, its, path, rw other without)))
    | inr (without, g) ↦ inr (rw other without, g)
  ]
]
  where
    own : some p.path ≡ some setting → p.path ≡ setting
    own e = cc

shared_only :
    (e : ExistingPaths) (extension_id : Option Text) (setting : Text)
    → given e.shared_existing_path ≡ some setting
    → HasNoPair e.individualized_extension_paths extension_id
    → IsSettingFor (some e) extension_id setting
shared_only e extension_id setting g none_of =
    let (is_shared, filled) = given-some e.shared_existing_path setting g in
    (e, (refl, inr (is_shared, filled, none_of)))

pub get_existing_path-IsSettingFor :
    (paths : Option ExistingPaths) (extension_id : Option Text) (setting : Text)
    → get_existing_path paths extension_id ≡ some setting
    → IsSettingFor paths extension_id setting
unfolding get_existing_path
get_existing_path-IsSettingFor none extension_id setting h = cc
get_existing_path-IsSettingFor (some e) none setting h = shared_only e none setting h (inl refl)
get_existing_path-IsSettingFor (some e) (some []) setting h =
    shared_only e (some []) setting h (inr (inl refl))
get_existing_path-IsSettingFor (some e) (some (c ∷ cs)) setting h =
    of_pairs e.individualized_extension_paths refl
  where
    of_pairs :
        (o : Option (List LocalExistingPath))
        → e.individualized_extension_paths ≡ o
        → IsSettingFor (some e) (some (c ∷ cs)) setting
    of_pairs none is =
        shared_only e (some (c ∷ cs)) setting (rw is at h) (inr (inr (c ∷ cs, (refl, inl is))))
    of_pairs (some ps) is =
        elim (first_of (c ∷ cs) ps e.shared_existing_path setting (rw is at h)) [
          | inl first ↦ (e, (refl, inl (c ∷ cs, (ps, (refl, is, first)))))
          | inr (without, g) ↦
              shared_only e (some (c ∷ cs)) setting g
                (inr (inr (c ∷ cs, (refl, inr (ps, (is, without))))))
        ]
