-- ===== src/Collections/Sets.antt =====
-- Laws of sets of texts.
use mathlib.Core.List.{append-nil, append_assoc}
use vscode_dotnet_runtime.Prelude.{◌≡◌, refl, ◌||◌, false, sym, ◌∙◌, List, [], ◌∷◌, ◌++◌, arith}
use vscode_dotnet_runtime.Text.{Text, ◌===◌, ===_self, ===_iff}
use vscode_dotnet_runtime.Collections.{has, add, add_all}

pub has-append : (a : Text) (xs ys : List Text) → has a (xs ++ ys) ≡ (has a xs || has a ys)
unfolding has
has-append a [] ys = refl
has-append a (x ∷ xs) ys = ground (arith, has-append a xs ys)

-- Adding an element changes what the set has at that element, and nowhere else.
pub has-add : (a b : Text) (xs : List Text) → has b (add a xs) ≡ (a === b || has b xs)
unfolding add
has-add a b xs = ground (arith, has-append b xs (a ∷ []), ===_iff a b, ===_self a)

abbrev pub Distinct : List Text → Type 0
Distinct [] = Unit
Distinct (x ∷ xs) = (has x xs ≡ false) × Distinct xs

pub Distinct-last :
    (a : Text) (xs : List Text) → has a xs ≡ false → Distinct xs → Distinct (xs ++ a ∷ [])
unfolding has
Distinct-last a [] h d = (refl, tt)
Distinct-last a (x ∷ xs) h d =
    ground (arith, has-append x xs (a ∷ []), Distinct-last a xs, ===_iff a x, ===_iff x a)

pub add-Distinct : (a : Text) (xs : List Text) → Distinct xs → Distinct (add a xs)
unfolding add
add-Distinct a xs d = ground (arith, Distinct-last a xs)

pub add_all-Distinct : (xs ys : List Text) → Distinct xs → Distinct (add_all xs ys)
unfolding add_all
add_all-Distinct xs [] d = d
add_all-Distinct xs (y ∷ ys) d = add_all-Distinct (add y xs) ys (add-Distinct y xs d)

-- A list without repetition that goes into a set without its elements is appended to it.
abbrev pub Apart : List Text → List Text → Type 0
Apart xs [] = Unit
Apart xs (y ∷ ys) = (has y xs ≡ false) × Apart xs ys

pub Apart-last :
    (x : Text) (xs ys : List Text) → Apart xs ys → has x ys ≡ false → Apart (xs ++ x ∷ []) ys
unfolding has
Apart-last x xs [] h n = tt
Apart-last x xs (y ∷ ys) h n = (
  ground (arith, has-append y xs (x ∷ []), ===_iff x y, ===_iff y x),
  Apart-last x xs ys h.1 (ground arith),
)

pub Apart-nil : (ys : List Text) → Apart [] ys
unfolding has
Apart-nil [] = tt
Apart-nil (y ∷ ys) = (refl, Apart-nil ys)

pub add_all-append : (xs ys : List Text) → Apart xs ys → Distinct ys → add_all xs ys ≡ xs ++ ys
unfolding add_all add
add_all-append xs [] h d = sym (append-nil xs)
add_all-append xs (y ∷ ys) h d =
    rw h.0 (add_all-append (xs ++ y ∷ []) ys (Apart-last y xs ys h.1 d.0) d.1)
    ∙ append_assoc xs (y ∷ []) ys
