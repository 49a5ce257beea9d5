-- ===== src/Text/Search.antt =====
-- Laws of `starts_with`, `includes` and `to_lower_case`.
use mathlib.Core.Bool.{and-eq-true_iff}
use vscode_dotnet_runtime.Prelude.{
  ◌≡◌, refl, ap, ap₂, true, [], ◌∷◌, ◌++◌, arith, ==_self, ==_iff, ◌==◌, Bool-cases, inl, inr,
}
use vscode_dotnet_runtime.Text.{Text, starts_with, includes, to_lower_case}

starts_with-append : (p t : Text) → starts_with (p ++ t) p ≡ true
unfolding starts_with
starts_with-append [] t = refl
starts_with-append (x ∷ p) t = ground (arith, starts_with-append p t, ==_self x)

pub includes_prefix : (p t : Text) → includes (p ++ t) p ≡ true
unfolding includes
includes_prefix [] [] = refl
includes_prefix [] (x ∷ t) = refl
includes_prefix (x ∷ p) t = ground (arith, starts_with-append (x ∷ p) t)

-- What the end of a text includes, the text includes.
pub includes-append : (s t p : Text) → includes t p ≡ true → includes (s ++ t) p ≡ true
unfolding includes
includes-append [] t p h = h
includes-append (x ∷ s) t p h = ground (arith, includes-append s t p h)

pub to_lower_case-append :
    (s t : Text) → to_lower_case (s ++ t) ≡ to_lower_case s ++ to_lower_case t
unfolding to_lower_case
to_lower_case-append [] t = refl
to_lower_case-append (x ∷ s) t = ground (arith, to_lower_case-append s t)

-- A text that another one is found in.
pub starts_with-rest : (t p : Text) → starts_with t p ≡ true → (after : Text) × (t ≡ p ++ after)
unfolding starts_with
starts_with-rest t [] h = (t, refl)
starts_with-rest [] (y ∷ p) h = cc
starts_with-rest (x ∷ t) (y ∷ p) h =
    let (first, others) = (and-eq-true_iff (x == y) (starts_with t p)).0 h in
    let (after, e) = starts_with-rest t p others in
    (after, ap₂ (λ c cs. c ∷ cs) ((==_iff x y).0 first) e)

pub includes-parts :
    (t p : Text)
    → includes t p ≡ true
    → (before : Text) × ((after : Text) × (t ≡ before ++ (p ++ after)))
unfolding includes
includes-parts [] p h = let (after, e) = starts_with-rest [] p h in ([], (after, e))
includes-parts (x ∷ t) p h = elim (Bool-cases (starts_with (x ∷ t) p)) [
  | inl here ↦ let (after, e) = starts_with-rest (x ∷ t) p here in ([], (after, e))
  | inr later ↦
      let (before, (after, e)) = includes-parts t p (rw later at h) in
      (x ∷ before, (after, ap (λ cs. x ∷ cs) e))
]
