-- ===== src/Text/Number/Digits.antt =====
-- `Number` on a text of decimal digits, and the order of what it gives.
use vscode_dotnet_runtime.Prelude.{
  ℕ, suc, ◌+◌, ◌-◌, ◌*◌, ◌≡◌, refl, ◌≢◌, true, false, none, [], ◌∷◌, arith, leb, ◌==◌, length,
}
use vscode_dotnet_runtime.Text.{Text, codes, ◌===◌}
use vscode_dotnet_runtime.Text.Number.{
  of_ℕ, less_or_equal, same_number, is_space, trim_start, trim_end, is_digit, scan_digits,
  unsigned_literal, signed_literal, radix_of, numeric_literal, to_number,
}

abbrev pub Digits : Text → Type 0
Digits [] = Unit
Digits (x ∷ xs) = (is_digit x ≡ true) × Digits xs

-- The value of decimal digits behind the value of those before them.
abbrev pub value_from : ℕ → Text → ℕ
value_from acc [] = acc
value_from acc (x ∷ xs) = value_from (acc * 10 + (x - b'0')) xs

scan_digits_of_Digits :
    (acc n : ℕ) (s : Text) → Digits s → scan_digits acc n s ≡ (value_from acc s, n + length s, [])
unfolding scan_digits
scan_digits_of_Digits acc n [] h = ground arith
scan_digits_of_Digits acc n (x ∷ xs) h =
    ground (arith, scan_digits_of_Digits (acc * 10 + (x - b'0')) (suc n) xs h.1)

is_space_of_digit : (x : ℕ) → is_digit x ≡ true → is_space x ≡ false
unfolding is_space
is_space_of_digit x h = ground arith

trim_start_of_Digits : (s : Text) → Digits s → trim_start s ≡ s
unfolding trim_start
trim_start_of_Digits [] h = refl
trim_start_of_Digits (x ∷ xs) h = ground (arith, is_space_of_digit x h.0)

trim_end_of_Digits : (s : Text) → Digits s → trim_end s ≡ s
unfolding trim_end
trim_end_of_Digits [] h = refl
trim_end_of_Digits (x ∷ []) h = ground (arith, is_space_of_digit x h.0)
trim_end_of_Digits (x ∷ y ∷ xs) h = ground (arith, trim_end_of_Digits (y ∷ xs) h.1)

not_infinity : (x : ℕ) (xs : Text) → is_digit x ≡ true → ((x ∷ xs) === codes "Infinity") ≡ false
unfolding ◌===◌
not_infinity x xs h = ground arith

unsigned_literal_of_Digits :
    (x : ℕ) (xs : Text) → Digits (x ∷ xs) → unsigned_literal (x ∷ xs) ≡ of_ℕ (value_from 0 (x ∷ xs))
unfolding unsigned_literal
unsigned_literal_of_Digits x xs h =
    ground (arith, not_infinity x xs h.0, scan_digits_of_Digits 0 0 (x ∷ xs) h)

signed_literal_of_Digits :
    (x : ℕ) (xs : Text) → Digits (x ∷ xs) → signed_literal (x ∷ xs) ≡ of_ℕ (value_from 0 (x ∷ xs))
unfolding signed_literal
signed_literal_of_Digits x xs h = ground (arith, unsigned_literal_of_Digits x xs h)

radix_of_digit : (y : ℕ) → is_digit y ≡ true → radix_of y ≡ none
radix_of_digit y h = ground arith

numeric_literal_of_Digits :
    (x : ℕ) (xs : Text) → Digits (x ∷ xs) → numeric_literal (x ∷ xs) ≡ of_ℕ (value_from 0 (x ∷ xs))
unfolding numeric_literal
numeric_literal_of_Digits x [] h = signed_literal_of_Digits x [] h
numeric_literal_of_Digits x (y ∷ xs) h =
    ground (arith, radix_of_digit y h.1.0, signed_literal_of_Digits x (y ∷ xs) h)

-- On decimal digits, one at least, `Number` gives their value.
pub to_number_of_Digits : (s : Text) → s ≢ [] → Digits s → to_number s ≡ of_ℕ (value_from 0 s)
unfolding to_number
to_number_of_Digits [] ne h = absurd (ne refl)
to_number_of_Digits (x ∷ xs) ne h = ground (
  arith,
  trim_start_of_Digits (x ∷ xs) h,
  trim_end_of_Digits (x ∷ xs) h,
  numeric_literal_of_Digits x xs h,
)

pub less_or_equal-of_ℕ : (a b : ℕ) → less_or_equal (of_ℕ a) (of_ℕ b) ≡ leb a b
unfolding less_or_equal
less_or_equal-of_ℕ a b = ground arith

pub same_number-of_ℕ : (a b : ℕ) → same_number (of_ℕ a) (of_ℕ b) ≡ (a == b)
unfolding same_number
same_number-of_ℕ a b = ground arith
