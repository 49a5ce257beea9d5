-- ===== src/Text/Split.antt =====
-- Laws of `split` and `count`: the number of parts, what the parts hold, and joining them again.
use vscode_dotnet_runtime.Prelude.{
  ℕ, suc, ◌+◌, ◌≡◌, refl, ◌≢◌, false, List, [], ◌∷◌, ◌++◌, arith, length, get_or, All, ◌==◌,
  ==_self,
}
use vscode_dotnet_runtime.Text.{Text, onto_head, split, count}

-- No code unit of the text is `c`.
abbrev pub Lacks : ℕ → Text → Type 0
Lacks c [] = Unit
Lacks c (x ∷ xs) = ((x == c) ≡ false) × Lacks c xs

-- `parts.join(c)`.
abbrev pub join : ℕ → List Text → Text
join c [] = []
join c (w ∷ []) = w
join c (w ∷ v ∷ ws) = w ++ c ∷ join c (v ∷ ws)

pub split-ne-nil : (c : ℕ) (s : Text) → split c s ≢ []
unfolding split
split-ne-nil c [] e = cc
split-ne-nil c (x ∷ xs) e = ground (arith, split-ne-nil c xs)

pub length-split : (c : ℕ) (s : Text) → length (split c s) ≡ suc (count c s)
unfolding split count
length-split c [] = refl
length-split c (x ∷ xs) = ground (arith, length-split c xs, split-ne-nil c xs)

pub split_of_Lacks : (c : ℕ) (s : Text) → Lacks c s → split c s ≡ s ∷ []
unfolding split
split_of_Lacks c [] h = refl
split_of_Lacks c (x ∷ xs) h = ground (arith, split_of_Lacks c xs h.1)

pub split-append : (c : ℕ) (s t : Text) → Lacks c s → split c (s ++ c ∷ t) ≡ s ∷ split c t
unfolding split
split-append c [] t h = ground (arith, ==_self c)
split-append c (x ∷ xs) t h = ground (arith, split-append c xs t h.1)

-- The first part of `s ++ t` begins with all of `s`, if `s` holds no separator.
pub split-append_first :
    (c : ℕ) (s t : Text) → Lacks c s → get_or (split c (s ++ t)) 0 [] ≡ s ++ get_or (split c t) 0 []
unfolding split
split-append_first c [] t h = refl
split-append_first c (x ∷ xs) t h =
    ground (arith, split-append_first c xs t h.1, split-ne-nil c (xs ++ t))

pub split-Lacks : (c : ℕ) (s : Text) → All (Lacks c) (split c s)
unfolding split
split-Lacks c [] = (tt, tt)
split-Lacks c (x ∷ xs) = ground (arith, split-Lacks c xs, split-ne-nil c xs)

join-onto_head : (c x : ℕ) (ws : List Text) → ws ≢ [] → join c (onto_head x ws) ≡ x ∷ join c ws
join-onto_head c x [] h = absurd (h refl)
join-onto_head c x (w ∷ []) h = refl
join-onto_head c x (w ∷ v ∷ ws) h = refl

join_empty_head : (c : ℕ) (ws : List Text) → ws ≢ [] → join c ([] ∷ ws) ≡ c ∷ join c ws
join_empty_head c [] h = absurd (h refl)
join_empty_head c (w ∷ ws) h = refl

pub join-split : (c : ℕ) (s : Text) → join c (split c s) ≡ s
unfolding split
join-split c [] = refl
join-split c (x ∷ xs) = ground (
  arith,
  join-split c xs,
  split-ne-nil c xs,
  join-onto_head c x (split c xs),
  join_empty_head c (split c xs),
)

pub count-append : (c : ℕ) (s t : Text) → count c (s ++ t) ≡ count c s + count c t
unfolding count
count-append c [] t = omega arith
count-append c (x ∷ xs) t = ground (arith, count-append c xs t)

pub count_of_Lacks : (c : ℕ) (s : Text) → Lacks c s → count c s ≡ 0
unfolding count
count_of_Lacks c [] h = refl
count_of_Lacks c (x ∷ xs) h = ground (arith, count_of_Lacks c xs h.1)
