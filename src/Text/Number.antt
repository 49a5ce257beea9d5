-- ===== src/Text/Number.antt =====
-- `Number(text)` and the comparisons of what it gives. A finite value is kept exactly, as a sign and
-- a decimal fraction; it is not rounded to a double, which makes no difference below 2 ^ 53.
pub mod Digits
use vscode_dotnet_runtime.Prelude.{
  ℕ, suc, ◌+◌, ◌-◌, ◌*◌, ◌^◌, ◌≡◌, refl, Bool, true, false, ◌&&◌, ◌||◌, not, Option, none, some, [],
  ◌∷◌, leb, ◌==◌, if◌then◌else◌, any_of,
}
use vscode_dotnet_runtime.Text.{Text, codes, ◌===◌}

-- `fraction negative m e f` is m * 10 ^ e / 10 ^ f, with the sign in front.
pub data JsNumber : Type 0 where
  nan : JsNumber
  infinity : Bool → JsNumber
  fraction : Bool → ℕ → ℕ → ℕ → JsNumber

abbrev pub of_ℕ : ℕ → JsNumber
of_ℕ n = fraction false n 0 0

unfoldable pub is_nan : JsNumber → Bool
is_nan nan = true
is_nan _ = false

-- A number as a condition: 0 and NaN are false.
unfoldable pub is_truthy : JsNumber → Bool
is_truthy nan = false
is_truthy (infinity _) = true
is_truthy (fraction _ m _ _) = not (m == 0)

-- `a <= b`, by cross multiplication; NaN compares to nothing.
unfoldable pub less_or_equal : JsNumber → JsNumber → Bool
less_or_equal nan _ = false
less_or_equal (infinity n) nan = false
less_or_equal (fraction _ _ _ _) nan = false
less_or_equal (infinity true) (infinity _) = true
less_or_equal (infinity true) (fraction _ _ _ _) = true
less_or_equal (infinity false) (infinity n) = not n
less_or_equal (infinity false) (fraction _ _ _ _) = false
less_or_equal (fraction _ _ _ _) (infinity n) = not n
less_or_equal (fraction false m e f) (fraction false m' e' f') =
    leb (m * 10 ^ (e + f')) (m' * 10 ^ (e' + f))
less_or_equal (fraction true m e f) (fraction true m' e' f') =
    leb (m' * 10 ^ (e' + f)) (m * 10 ^ (e + f'))
less_or_equal (fraction true _ _ _) (fraction false _ _ _) = true
less_or_equal (fraction false m _ _) (fraction true m' _ _) = m == 0 && m' == 0

-- `a === b` on numbers: 0 and -0 are equal, NaN equals nothing.
unfoldable pub same_number : JsNumber → JsNumber → Bool
unfolding less_or_equal
same_number a b = less_or_equal a b && less_or_equal b a

-- White space and line ends of ECMAScript.
unfoldable pub is_space : ℕ → Bool
is_space c =
    leb 9 c && leb c 13
    || any_of (λ s. c == s)
        (32 ∷ 160 ∷ 0x1680 ∷ 0x2028 ∷ 0x2029 ∷ 0x202f ∷ 0x205f ∷ 0x3000 ∷ 0xfeff ∷ [])
    || leb 0x2000 c && leb c 0x200a

unfoldable pub trim_start : Text → Text
unfolding is_space
trim_start [] = []
trim_start (x ∷ xs) = let rest = trim_start xs in if is_space x then rest else x ∷ xs

abbrev pub close_space : ℕ → Text → Text
close_space x [] = if is_space x then [] else x ∷ []
close_space x (y ∷ ys) = x ∷ y ∷ ys

-- Drops the white space at the end: a space stays if something that stays follows it.
unfoldable pub trim_end : Text → Text
unfolding is_space
trim_end [] = []
trim_end (x ∷ xs) = close_space x (trim_end xs)

abbrev pub is_digit : ℕ → Bool
is_digit c = leb b'0' c && leb c b'9'

-- The value of a digit in a base up to 16.
unfoldable pub digit_value : ℕ → ℕ → Option ℕ
digit_value base c =
    if is_digit c && leb (c - b'0' + 1) base
    then some (c - b'0')
    else if base == 16 && leb b'a' c && leb c b'f'
    then some (c - b'a' + 10)
    else if base == 16 && leb b'A' c && leb c b'F'
    then some (c - b'A' + 10)
    else none

abbrev next_digit : ℕ → ℕ → Option ℕ → (ℕ → JsNumber) → JsNumber
next_digit base acc none rest = nan
next_digit base acc (some d) rest = rest (acc * base + d)

-- The digits after `0x`, `0o` or `0b`: all of the text, or it is no number.
unfoldable pub radix_literal : ℕ → ℕ → Text → JsNumber
unfolding digit_value
radix_literal base acc [] = of_ℕ acc
radix_literal base acc (x ∷ xs) =
    next_digit base acc (digit_value base x) (λ acc'. radix_literal base acc' xs)

-- Reads decimal digits: the value, how many there were, and what follows.
unfoldable pub scan_digits : ℕ → ℕ → Text → ℕ × ℕ × Text
scan_digits acc n [] = (acc, n, [])
scan_digits acc n (x ∷ xs) =
    let more = scan_digits (acc * 10 + (x - b'0')) (suc n) xs in
    if is_digit x then more else (acc, n, x ∷ xs)

-- The digits of an exponent: one at least, and nothing after them.
abbrev exponent_digits : Bool → Text → Option (Bool × ℕ)
exponent_digits negative s =
    let (k, n, rest) = scan_digits 0 0 s in
    if n == 0 then none else if rest === [] then some (negative, k) else none

abbrev exponent_sign : Text → Option (Bool × ℕ)
exponent_sign [] = none
exponent_sign (x ∷ xs) =
    if x == b'+'
    then exponent_digits false xs
    else if x == b'-'
    then exponent_digits true xs
    else exponent_digits false (x ∷ xs)

-- What may follow the digits: nothing, or an exponent.
unfoldable pub exponent_part : Text → Option (Bool × ℕ)
unfolding scan_digits ◌===◌
exponent_part [] = some (false, 0)
exponent_part (x ∷ xs) = if x == b'e' || x == b'E' then exponent_sign xs else none

abbrev scale : ℕ → ℕ → Option (Bool × ℕ) → JsNumber
scale m f none = nan
scale m f (some (true, k)) = fraction false m 0 (f + k)
scale m f (some (false, k)) = fraction false m k f

-- The fraction after the integer digits, if a point follows; a number needs a digit somewhere.
abbrev fraction_part : ℕ → ℕ → Text → JsNumber
fraction_part m n [] = if n == 0 then nan else of_ℕ m
fraction_part m n (x ∷ xs) =
    let (m', f, rest) = scan_digits m 0 xs in
    if x == b'.'
    then if n + f == 0 then nan else scale m' f (exponent_part rest)
    else if n == 0
    then nan
    else scale m 0 (exponent_part (x ∷ xs))

unfoldable pub unsigned_literal : Text → JsNumber
unfolding scan_digits exponent_part ◌===◌
unsigned_literal s =
    if s === codes "Infinity"
    then infinity false
    else let (m, n, rest) = scan_digits 0 0 s in fraction_part m n rest

abbrev negate : JsNumber → JsNumber
negate nan = nan
negate (infinity n) = infinity (not n)
negate (fraction n m e f) = fraction (not n) m e f

unfoldable pub signed_literal : Text → JsNumber
unfolding unsigned_literal
signed_literal [] = of_ℕ 0
signed_literal (x ∷ xs) =
    if x == b'-'
    then negate (unsigned_literal xs)
    else if x == b'+'
    then unsigned_literal xs
    else unsigned_literal (x ∷ xs)

-- The base that a prefix `0x`, `0o` or `0b` announces.
abbrev radix_of : ℕ → Option ℕ
radix_of p =
    if p == b'x' || p == b'X'
    then some 16
    else if p == b'o' || p == b'O'
    then some 8
    else if p == b'b' || p == b'B'
    then some 2
    else none

abbrev after_prefix : Option ℕ → Text → JsNumber → JsNumber
after_prefix none rest decimal = decimal
after_prefix (some base) [] decimal = nan
after_prefix (some base) (x ∷ xs) decimal = radix_literal base 0 (x ∷ xs)

unfoldable pub numeric_literal : Text → JsNumber
numeric_literal (z ∷ p ∷ rest) =
    let decimal = signed_literal (z ∷ p ∷ rest) in
    if z == b'0' then after_prefix (radix_of p) rest decimal else decimal
numeric_literal s = signed_literal s

-- `Number(s)`.
unfoldable pub to_number : Text → JsNumber
unfolding trim_start trim_end numeric_literal signed_literal radix_literal
to_number s = numeric_literal (trim_end (trim_start s))

to_number_tests :
    (to_number (codes " 12 ") ≡ of_ℕ 12)
    × (to_number [] ≡ of_ℕ 0)
    × (to_number (codes "-3.25e1") ≡ fraction true 325 1 2)
    × (to_number (codes "4xx") ≡ nan)
    × (to_number (codes "0x1F") ≡ of_ℕ 31)
    × (to_number (codes ".") ≡ nan)
    × (to_number (codes "8.") ≡ of_ℕ 8)
    × (to_number (codes "+Infinity") ≡ infinity false)
unfolding to_number
to_number_tests = (refl, refl, refl, refl, refl, refl, refl, refl)
