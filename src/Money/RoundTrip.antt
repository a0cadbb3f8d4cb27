-- ===== src/Money/RoundTrip.antt =====
-- Parsing and printing of base units (src/domain/money/base-unit.ts) are inverse to each other.
use oscar_payment_gateway.Prelude.{
  ℕ, zero, suc, ◌+◌, ◌-◌, ◌*◌, ◌/◌, ◌%◌, ◌≤◌, ◌<◌, ◌≡◌, ◌↔◌, refl, ap, ◌∙◌, sym, true, false, none,
  some, List, [], ◌∷◌, ◌++◌, all, leb, ltb, Bool-cases, inl, inr, arith,
}
use mathlib.Core.Option.{some-injective}
use mathlib.Core.List.{append-nil}
use oscar_payment_gateway.Money.{
  is_digit, is_nonzero_digit, is_positive_base_unit_string, is_base_unit_string, digits_value,
  parse_base_units, print_digits, format_base_units,
}

print_digits-small :
    (f n : ℕ) (rest : List ℕ) → n < 10 → print_digits (suc f) n rest ≡ (b'0' + n) ∷ rest
unfolding print_digits
print_digits-small f n rest small =
    let t : ltb n 10 ≡ true = ground arith in rw (t, print_digits) refl

print_digits-large :
    (f n : ℕ) (rest : List ℕ)
    → 10 ≤ n
    → print_digits (suc f) n rest ≡ print_digits f (n / 10) ((b'0' + n % 10) ∷ rest)
unfolding print_digits
print_digits-large f n rest large =
    let t : ltb n 10 ≡ false = ground arith in rw (t, print_digits) refl

-- More fuel than the number prints the same digits.
print_digits_enough :
    (f g n : ℕ) (rest : List ℕ) → n < f → n < g → print_digits f n rest ≡ print_digits g n rest
print_digits_enough zero g n rest a b = absurd (omega arith)
print_digits_enough (suc f) zero n rest a b = absurd (omega arith)
print_digits_enough (suc f) (suc g) n rest a b = elim (Bool-cases (ltb n 10)) [
  | inl small ↦
      let l : n < 10 = ground arith in
      print_digits-small f n rest l ∙ sym (print_digits-small g n rest l)
  | inr large ↦
      let l : 10 ≤ n = ground arith in
      print_digits-large f n rest l
      ∙ print_digits_enough f g (n / 10) ((b'0' + n % 10) ∷ rest) (omega arith) (omega arith)
      ∙ sym (print_digits-large g n rest l)
]

digits_value-digit :
    (n : ℕ) (rest : List ℕ) → digits_value 0 ((b'0' + n) ∷ rest) ≡ digits_value n rest
unfolding digits_value
digits_value-digit n rest = ap (λ k. digits_value k rest) (omega arith)

digits_value-next :
    (n : ℕ) (rest : List ℕ) → digits_value (n / 10) ((b'0' + n % 10) ∷ rest) ≡ digits_value n rest
unfolding digits_value
digits_value-next n rest = ap (λ k. digits_value k rest) (omega arith)

digits_value-print_digits :
    (f n : ℕ) (rest : List ℕ) → n < f → digits_value 0 (print_digits f n rest) ≡ digits_value n rest
digits_value-print_digits zero n rest a = absurd (omega arith)
digits_value-print_digits (suc f) n rest a = elim (Bool-cases (ltb n 10)) [
  | inl small ↦
      let l : n < 10 = ground arith in
      ap (digits_value 0) (print_digits-small f n rest l) ∙ digits_value-digit n rest
  | inr large ↦
      let l : 10 ≤ n = ground arith in
      ap (digits_value 0) (print_digits-large f n rest l)
      ∙ digits_value-print_digits f (n / 10) ((b'0' + n % 10) ∷ rest) (omega arith)
      ∙ digits_value-next n rest
]

one_digit :
    (n : ℕ) (rest : List ℕ)
    → 0 < n
    → n < 10
    → all is_digit rest ≡ true
    → is_positive_base_unit_string ((b'0' + n) ∷ rest) ≡ true
unfolding is_positive_base_unit_string
one_digit n rest p l d =
    let a : leb b'1' (b'0' + n) ≡ true = ground arith in
    let b : leb (b'0' + n) b'9' ≡ true = ground arith in rw (a, b) d

one_more :
    (n : ℕ) (rest : List ℕ)
    → all is_digit rest ≡ true
    → all is_digit ((b'0' + n % 10) ∷ rest) ≡ true
one_more n rest d =
    let a : leb b'0' (b'0' + n % 10) ≡ true = ground arith in
    let b : leb (b'0' + n % 10) b'9' ≡ true = ground arith in rw (a, b) d

print_digits_positive :
    (f n : ℕ) (rest : List ℕ)
    → 0 < n
    → n < f
    → all is_digit rest ≡ true
    → is_positive_base_unit_string (print_digits f n rest) ≡ true
print_digits_positive zero n rest pos a d = absurd (omega arith)
print_digits_positive (suc f) n rest pos a d = elim (Bool-cases (ltb n 10)) [
  | inl small ↦
      let l : n < 10 = ground arith in
      ap is_positive_base_unit_string (print_digits-small f n rest l) ∙ one_digit n rest pos l d
  | inr large ↦
      let l : 10 ≤ n = ground arith in
      ap is_positive_base_unit_string (print_digits-large f n rest l)
      ∙ print_digits_positive f (n / 10) ((b'0' + n % 10) ∷ rest) (omega arith) (omega arith)
          (one_more n rest d)
]

-- Printing what digits after a positive number add up to gives these digits after the number's.
print_digits-digits_value :
    (ds : List ℕ) (f g acc : ℕ) (rest : List ℕ)
    → 0 < acc
    → acc < g
    → digits_value acc ds < f
    → all is_digit ds ≡ true
    → print_digits f (digits_value acc ds) rest ≡ print_digits g acc (ds ++ rest)
unfolding digits_value
print_digits-digits_value [] f g acc rest pos a b d = print_digits_enough f g acc rest b a
print_digits-digits_value (c ∷ ds) f g acc rest pos a b d =
    let digit : is_digit c ≡ true = ground arith in
    let low : b'0' ≤ c = ground arith in
    let high : c ≤ b'9' = ground arith in
    let next : ℕ = acc * 10 + (c - b'0') in
    let quotient : next / 10 ≡ acc = omega arith in
    let remainder : b'0' + next % 10 ≡ c = omega arith in
    print_digits-digits_value ds f (suc next) next rest (omega arith) (omega arith) b (ground arith)
    ∙ print_digits-large next next (ds ++ rest) (omega arith)
    ∙ ap (λ q. print_digits next q ((b'0' + next % 10) ∷ ds ++ rest)) quotient
    ∙ ap (λ r. print_digits next acc (r ∷ ds ++ rest)) remainder
    ∙ print_digits_enough next g acc (c ∷ ds ++ rest) (omega arith) a

positive_round_trip :
    (c : ℕ) (ds : List ℕ)
    → is_nonzero_digit c ≡ true
    → all is_digit ds ≡ true
    → format_base_units (digits_value 0 (c ∷ ds)) ≡ c ∷ ds
unfolding format_base_units digits_value
positive_round_trip c ds nonzero digits =
    let low : b'1' ≤ c = ground arith in
    let high : c ≤ b'9' = ground arith in
    let code : b'0' + (c - b'0') ≡ c = omega arith in
    let start : 0 + (c - b'0') ≡ c - b'0' = omega arith in
    ap (λ k. print_digits (digits_value k ds + 1) (digits_value k ds) []) start
    ∙ print_digits-digits_value ds (digits_value (c - b'0') ds + 1) (suc (c - b'0')) (c - b'0') []
        (omega arith) (omega arith) (omega arith) digits
    ∙ print_digits-small (c - b'0') (c - b'0') (ds ++ []) (omega arith)
    ∙ ap (λ k. k ∷ ds ++ []) code
    ∙ ap (λ tail. c ∷ tail) (append-nil ds)

-- What the digits of a base-unit text add up to is printed as the text.
format_base_units-digits_value :
    (s : List ℕ) → is_base_unit_string s ≡ true → format_base_units (digits_value 0 s) ≡ s
unfolding is_base_unit_string is_positive_base_unit_string digits_value format_base_units
    print_digits
format_base_units-digits_value [] ok = absurd (ground arith)
format_base_units-digits_value (c ∷ []) ok = elim (Bool-cases (is_nonzero_digit c)) [
  | inl nonzero ↦ positive_round_trip c [] nonzero refl
  | inr no_digit ↦ let zero_code : c ≡ b'0' = ground arith in rw zero_code refl
]
format_base_units-digits_value (c ∷ d ∷ ds) ok =
    positive_round_trip c (d ∷ ds) (ground arith) (ground arith)

is_base_unit_string-positive :
    (s : List ℕ) → is_positive_base_unit_string s ≡ true → is_base_unit_string s ≡ true
unfolding is_base_unit_string
is_base_unit_string-positive s positive = ground arith

is_base_unit_string-format_base_units : (n : ℕ) → is_base_unit_string (format_base_units n) ≡ true
unfolding is_base_unit_string format_base_units print_digits
is_base_unit_string-format_base_units zero = refl
is_base_unit_string-format_base_units (suc n) =
    is_base_unit_string-positive (format_base_units (suc n))
      (print_digits_positive (suc n + 1) (suc n) [] (omega arith) (omega arith) refl)

parse_base_units-ok :
    (s : List ℕ) → is_base_unit_string s ≡ true → parse_base_units s ≡ some (digits_value 0 s)
unfolding parse_base_units
parse_base_units-ok s ok = rw ok refl

parse_base_units-refused : (s : List ℕ) → is_base_unit_string s ≡ false → parse_base_units s ≡ none
unfolding parse_base_units
parse_base_units-refused s bad = rw bad refl

-- The number whose text was printed is read back.
digits_value-format_base_units : (n : ℕ) → digits_value 0 (format_base_units n) ≡ n
unfolding format_base_units digits_value
digits_value-format_base_units n = digits_value-print_digits (n + 1) n [] (omega arith)

-- A text is parsed to a number exactly when the number is printed as the text: each amount has one
-- text, which `parse_base_units` accepts, and every other text is refused.
pub parse_base_units-format_base_units :
    (s : List ℕ) (n : ℕ) → (parse_base_units s ≡ some n) ↔ (s ≡ format_base_units n)
parse_base_units-format_base_units s n = (
  elim (Bool-cases (is_base_unit_string s)) [
    | inl ok ↦ λ parsed.
        let value : digits_value 0 s ≡ n =
          some-injective _ _ (sym (parse_base_units-ok s ok) ∙ parsed) in
        sym (format_base_units-digits_value s ok) ∙ ap format_base_units value
    | inr bad ↦ λ parsed. absurd (cc (parse_base_units-refused s bad, parsed))
  ],
  λ printed.
      ap parse_base_units printed
      ∙ parse_base_units-ok (format_base_units n) (is_base_unit_string-format_base_units n)
      ∙ ap some (digits_value-format_base_units n),
)
