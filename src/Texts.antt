-- ===== src/Texts.antt =====
-- Texts as lists of UTF-16 code units: case, the patterns of
-- src/infrastructure/mongodb/schema-helpers.ts, and the numbers that JavaScript's `BigInt` reads.
pub mod Laws
use oscar_payment_gateway.Prelude.{
  ℕ, zero, suc, ◌+◌, ◌-◌, ◌*◌, Bool, true, false, not, ◌&&◌, ◌||◌, Option, none, some, List, [],
  ◌∷◌, ◌==◌, all, any, map, length, if◌then◌else◌, leb, ltb,
}
use oscar_payment_gateway.Store.{Text}
use oscar_payment_gateway.Money.{is_digit, digits_value, format_base_units}

abbrev pub text_eq : Text → Text → Bool
text_eq [] [] = true
text_eq (a ∷ s) (b ∷ t) = a == b && text_eq s t
text_eq _ _ = false

-- `toLowerCase` of the ASCII letters; the texts that are stored have no others.
abbrev pub lower_code : ℕ → ℕ
lower_code c = if leb b'A' c && leb c b'Z' then c + 32 else c

unfoldable pub to_lower : Text → Text
to_lower t = map lower_code t

abbrev is_hex_letter : ℕ → Bool
is_hex_letter c = (leb b'a' c && leb c b'f') || (leb b'A' c && leb c b'F')

abbrev pub is_hex_digit : ℕ → Bool
is_hex_digit c = is_digit c || is_hex_letter c

-- `/^0x[0-9a-fA-F]{n}$/`.
unfoldable pub matches_hex : ℕ → Text → Bool
matches_hex n (z ∷ x ∷ ds) = z == b'0' && x == b'x' && length ds == n && all is_hex_digit ds
matches_hex n _ = false

abbrev pub evm_address_pattern : Text → Bool
evm_address_pattern = matches_hex 40

abbrev pub transaction_hash_pattern : Text → Bool
transaction_hash_pattern = matches_hex 64

-- `slice(n)`.
abbrev pub slice : ℕ → Text → Text
slice zero t = t
slice (suc n) [] = []
slice (suc n) (c ∷ t) = slice n t

abbrev hex_value_of : ℕ → ℕ
hex_value_of c = if is_digit c then c - b'0' else if ltb c b'a' then c - 55 else c - 87

-- Digits in a base of at most sixteen, after those that give `acc`; `none` for any other character.
unfoldable pub read_digits : ℕ → ℕ → Text → Option ℕ
read_digits base acc [] = some acc
read_digits base acc (c ∷ t) =
    let rest = read_digits base (acc * base + hex_value_of c) t in
    if is_hex_digit c && ltb (hex_value_of c) base then rest else none

-- An integer: `pos n` is `n`, `negsuc n` is `- (n + 1)`.
pub data ℤ : Type 0 where
  pos : ℕ → ℤ
  negsuc : ℕ → ℤ

abbrev negative : ℕ → ℤ
negative zero = pos 0
negative (suc n) = negsuc n

abbrev digits_in : ℕ → Text → Option ℕ
digits_in base [] = none
digits_in base (c ∷ t) = read_digits base 0 (c ∷ t)

abbrev option_map : {A B : Type 0} → (A → B) → Option A → Option B
option_map f none = none
option_map f (some a) = some (f a)

abbrev prefixed : ℕ → Text → Option ℕ
prefixed p t =
    if p == b'x' || p == b'X'
    then digits_in 16 t
    else if p == b'o' || p == b'O'
    then digits_in 8 t
    else if p == b'b' || p == b'B'
    then digits_in 2 t
    else none

abbrev is_prefix : ℕ → ℕ → Bool
is_prefix z p = z == b'0' && any (λ q. p == q) (b'x' ∷ b'X' ∷ b'o' ∷ b'O' ∷ b'b' ∷ b'B' ∷ [])

-- A text without white space at its ends.
abbrev trimmed_integer : Text → Option ℤ
trimmed_integer [] = some (pos 0)
trimmed_integer (c ∷ []) = option_map pos (digits_in 10 (c ∷ []))
trimmed_integer (c ∷ d ∷ t) =
    if c == b'-'
    then option_map negative (digits_in 10 (d ∷ t))
    else if c == b'+'
    then option_map pos (digits_in 10 (d ∷ t))
    else if is_prefix c d
    then option_map pos (prefixed d t)
    else option_map pos (digits_in 10 (c ∷ d ∷ t))

-- The white space and line ends that JavaScript trims.
abbrev is_space : ℕ → Bool
is_space c =
    (leb 9 c && leb c 13)
    || c == 32
    || c == 160
    || c == 5760
    || (leb 8192 c && leb c 8202)
    || c == 8232
    || c == 8233
    || c == 8239
    || c == 8287
    || c == 12288
    || c == 65279

abbrev trim_start : Text → Text
trim_start [] = []
trim_start (c ∷ t) = let rest = trim_start t in if is_space c then rest else c ∷ t

abbrev push_trimmed : ℕ → Text → Text
push_trimmed c [] = if is_space c then [] else c ∷ []
push_trimmed c (d ∷ t) = c ∷ d ∷ t

abbrev trim_end : Text → Text
trim_end [] = []
trim_end (c ∷ t) = push_trimmed c (trim_end t)

-- `BigInt` of a string; `none`: it throws.
unfoldable pub big_int : Text → Option ℤ
unfolding read_digits
big_int t = trimmed_integer (trim_end (trim_start t))

-- `toString(10)`.
unfoldable pub integer_text : ℤ → Text
unfolding format_base_units
integer_text (pos n) = format_base_units n
integer_text (negsuc n) = b'-' ∷ format_base_units (n + 1)
