-- ===== src/Money.antt =====
-- Base-unit amounts (src/domain/money/base-unit.ts): decimal strings without sign, fraction or leading
-- zero. A text is a list of character codes.
pub mod RoundTrip
use oscar_payment_gateway.Prelude.{
  ℕ, zero, suc, ◌+◌, ◌-◌, ◌*◌, ◌/◌, ◌%◌, Bool, true, false, ◌&&◌, ◌||◌, Option, none, some, List,
  [], ◌∷◌, ◌==◌, all, if◌then◌else◌, leb, ltb,
}

abbrev pub is_digit : ℕ → Bool
is_digit c = leb b'0' c && leb c b'9'

abbrev pub is_nonzero_digit : ℕ → Bool
is_nonzero_digit c = leb b'1' c && leb c b'9'

-- `positiveBaseUnitPattern`.
unfoldable pub is_positive_base_unit_string : List ℕ → Bool
is_positive_base_unit_string [] = false
is_positive_base_unit_string (c ∷ cs) = is_nonzero_digit c && all is_digit cs

is_zero_text : List ℕ → Bool
is_zero_text (c ∷ []) = c == b'0'
is_zero_text _ = false

-- `canonicalBaseUnitPattern`.
unfoldable pub is_base_unit_string : List ℕ → Bool
unfolding is_zero_text is_positive_base_unit_string
is_base_unit_string s = is_zero_text s || is_positive_base_unit_string s

-- `BigInt` of decimal digits, after those that give `acc`.
unfoldable pub digits_value : ℕ → List ℕ → ℕ
digits_value acc [] = acc
digits_value acc (c ∷ cs) = digits_value (acc * 10 + (c - b'0')) cs

-- `none`: the call throws.
unfoldable pub parse_base_units : List ℕ → Option ℕ
unfolding is_base_unit_string digits_value
parse_base_units s = if is_base_unit_string s then some (digits_value 0 s) else none

unfoldable pub parse_positive_base_units : List ℕ → Option ℕ
unfolding is_positive_base_unit_string digits_value
parse_positive_base_units s =
    if is_positive_base_unit_string s then some (digits_value 0 s) else none

-- The decimal digits of `n` before `rest`; `n + 1` is enough fuel.
unfoldable pub print_digits : ℕ → ℕ → List ℕ → List ℕ
print_digits zero n rest = rest
print_digits (suc fuel) n rest = elim (ltb n 10) [
  | true ↦ (b'0' + n) ∷ rest
  | false ↦ print_digits fuel (n / 10) ((b'0' + n % 10) ∷ rest)
]

-- `toString(10)`; an amount is never negative here.
unfoldable pub format_base_units : ℕ → List ℕ
unfolding print_digits
format_base_units n = print_digits (n + 1) n []
