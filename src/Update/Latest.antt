-- ===== src/Update/Latest.antt =====
-- LocalInstallUpdateService.ts: the install that `automaticUpdate` takes for the latest.
use mathlib.Core.List.{Memᴰ}
use mathlib.Core.List.Memᴰ.{head, tail, cases_cons}
use vscode_dotnet_runtime.Prelude.{
  ℕ, ◌≤◌, ◌≡◌, refl, sym, subst, Bool-cases, ◌⊎◌, inl, inr, some, List, [], ◌∷◌, arith, ltb, All,
}
use vscode_dotnet_runtime.Text.Number.{of_ℕ}
use vscode_dotnet_runtime.Text.Number.Digits.{less_or_equal-of_ℕ}
use vscode_dotnet_runtime.Tracker.State.{InstallRecord}
use vscode_dotnet_runtime.Update.{patch_number, exceeds, later_of, latest_from}

-- The patch of a record's version is a natural number.
abbrev pub HasPatch : (InstallRecord → ℕ) → InstallRecord → Type 0
HasPatch patch r = patch_number r.dotnet_install.version ≡ some (of_ℕ (patch r))

exceeds-of_ℕ : (a b : ℕ) → exceeds (some (of_ℕ a)) (some (of_ℕ b)) ≡ ltb b a
exceeds-of_ℕ a b = ground (arith, less_or_equal-of_ℕ a b, less_or_equal-of_ℕ b a)

module _ (patch : InstallRecord → ℕ) where
  abbrev Below : InstallRecord → List InstallRecord → Type 0
  Below latest rs = All (λ r. patch r ≤ patch latest) rs

  later-cases :
      (best r : InstallRecord)
      → HasPatch patch best
      → HasPatch patch r
      → ((later_of best r ≡ r) × (patch best ≤ patch r))
        ⊎ ((later_of best r ≡ best) × (patch r ≤ patch best))
  later-cases best r h g = elim (Bool-cases (ltb (patch best) (patch r))) [
    | inl newer ↦
        inl (rw (g, h) (rw (exceeds-of_ℕ (patch r) (patch best)) (rw newer refl)), ground arith)
    | inr older ↦
        inr (rw (g, h) (rw (exceeds-of_ℕ (patch r) (patch best)) (rw older refl)), ground arith)
  ]

  latest_from-above :
      (best : InstallRecord) (rs : List InstallRecord)
      → HasPatch patch best
      → All (HasPatch patch) rs
      → (patch best ≤ patch (latest_from best rs)) × Below (latest_from best rs) rs
  unfolding latest_from
  latest_from-above best [] h hs = (omega arith, tt)
  latest_from-above best (r ∷ rs) h hs = elim (later-cases best r h hs.0) [
    | inl (e, le) ↦
        let (ge, all) = latest_from-above r rs hs.0 hs.1 in
        subst Above (sym e) (omega (arith, le, ge), (ge, all))
    | inr (e, le) ↦
        let (ge, all) = latest_from-above best rs h hs.1 in
        subst Above (sym e) (ge, (omega (arith, le, ge), all))
  ]
    where
      Above : InstallRecord → Type 0
      Above l =
          (patch best ≤ patch (latest_from l rs))
          × ((patch r ≤ patch (latest_from l rs)) × Below (latest_from l rs) rs)

  into_rest :
      (x best r : InstallRecord) (rs : List InstallRecord)
      → Memᴰ x (later_of best r ∷ rs)
      → Memᴰ x (best ∷ r ∷ rs)
  into_rest x best r rs m = elim (cases_cons m) [
    | inr there ↦ tail (tail there)
    | inl here ↦
        elim (Bool-cases (
          exceeds (patch_number r.dotnet_install.version)
            (patch_number best.dotnet_install.version))) [
              | inl newer ↦ tail (head (rw newer at here))
              | inr older ↦ head (rw older at here)
            ]
  ]

  latest_from-Memᴰ :
      (best : InstallRecord) (rs : List InstallRecord) → Memᴰ (latest_from best rs) (best ∷ rs)
  unfolding latest_from
  latest_from-Memᴰ best [] = head refl
  latest_from-Memᴰ best (r ∷ rs) =
      into_rest (latest_from (later_of best r) rs) best r rs (latest_from-Memᴰ (later_of best r) rs)

  twice : {x y : InstallRecord} {ys : List InstallRecord} → Memᴰ x (y ∷ y ∷ ys) → Memᴰ x (y ∷ ys)
  twice (head e) = head e
  twice (tail m) = m

  -- Where the patches of the versions are natural numbers, the install that the update keeps is one
  -- of those in the group, and none of them has a greater patch.
  pub latest_is_greatest :
      (first : InstallRecord) (more : List InstallRecord)
      → All (HasPatch patch) (first ∷ more)
      → Memᴰ (latest_from first (first ∷ more)) (first ∷ more)
        × All (λ r. patch r ≤ patch (latest_from first (first ∷ more))) (first ∷ more)
  unfolding latest_from
  latest_is_greatest first more h = (
    twice (latest_from-Memᴰ first (first ∷ more)),
    (latest_from-above first (first ∷ more) h.0 h).1,
  )
