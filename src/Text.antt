-- ===== src/Text.antt =====
-- The strings of the program as lists of UTF-16 code units, with the methods of
-- `String.prototype` that the program calls.
pub mod Split
pub mod Search
pub mod Number
use Prim.Native.Char.{code}
use Prim.Native.String.{String}
use vscode_dotnet_runtime.Prelude.{
  ℕ, zero, suc, ◌+◌, ◌≡◌, refl, ◌↔◌, Bool, true, false, ◌&&◌, ◌||◌, Option, none, some, List, [],
  ◌∷◌, ◌++◌, arith, leb, ◌==◌, if◌then◌else◌,
}

abbrev pub Text : Type 0
Text = List ℕ

-- A literal of the source; all of them are ASCII.
abbrev pub codes : String → Text
codes String.[] = []
codes (String.◌∷◌ c s) = code c ∷ codes s

-- `a === b`.
infix 50 ◌===◌
unfoldable pub ◌===◌ : Text → Text → Bool
[] === [] = true
[] === (y ∷ ys) = false
(x ∷ xs) === [] = false
(x ∷ xs) === (y ∷ ys) = x == y && xs === ys

pub ===_self : (s : Text) → (s === s) ≡ true
unfolding ◌===◌
===_self [] = refl
===_self (x ∷ xs) = ground (arith, ===_self xs)

pub ===→eq : (s t : Text) → (s === t) ≡ true → s ≡ t
unfolding ◌===◌
===→eq [] [] h = refl
===→eq [] (y ∷ ys) h = cc
===→eq (x ∷ xs) [] h = cc
===→eq (x ∷ xs) (y ∷ ys) h = ground (arith, ===→eq xs ys)

pub ===_iff : (s t : Text) → ((s === t) ≡ true) ↔ (s ≡ t)
===_iff s t = (===→eq s t, λ e. rw e (===_self t))

-- `s.startsWith(p)`.
unfoldable pub starts_with : Text → Text → Bool
starts_with s [] = true
starts_with [] (p ∷ ps) = false
starts_with (x ∷ xs) (p ∷ ps) = x == p && starts_with xs ps

-- `s.includes(p)`.
unfoldable pub includes : Text → Text → Bool
unfolding starts_with
includes [] p = starts_with [] p
includes (x ∷ xs) p = starts_with (x ∷ xs) p || includes xs p

-- `s.includes(c)` for one code unit, and `s.endsWith(c)`.
unfoldable pub includes_code : Text → ℕ → Bool
includes_code [] c = false
includes_code (x ∷ xs) c = x == c || includes_code xs c

unfoldable pub ends_with_code : Text → ℕ → Bool
ends_with_code [] c = false
ends_with_code (x ∷ []) c = x == c
ends_with_code (x ∷ y ∷ xs) c = ends_with_code (y ∷ xs) c

-- `s.toLowerCase()` on the ASCII letters. A comparison with ASCII text sees no other letter but
-- the Kelvin sign, whose lower case is `k`.
unfoldable pub to_lower_case : Text → Text
to_lower_case [] = []
to_lower_case (x ∷ xs) = (if leb b'A' x && leb x b'Z' then x + 32 else x) ∷ to_lower_case xs

-- The first part gets one more code unit.
abbrev pub onto_head : ℕ → List Text → List Text
onto_head c [] = (c ∷ []) ∷ []
onto_head c (w ∷ ws) = (c ∷ w) ∷ ws

-- `s.split(c)` for a separator of one code unit: never the empty list.
unfoldable pub split : ℕ → Text → List Text
split c [] = [] ∷ []
split c (x ∷ xs) = let parts = split c xs in if x == c then [] ∷ parts else onto_head x parts

-- How often a code unit stands in a text.
unfoldable pub count : ℕ → Text → ℕ
count c [] = 0
count c (x ∷ xs) = let rest = count c xs in if x == c then suc rest else rest
