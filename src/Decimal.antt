-- ===== src/Decimal.antt =====
-- `strconv.FormatInt` in base ten, and the value of digits.
pub mod Signed
use native.Mathlib.Nat.{pow-suc}
use forge_proxy.Base.{
  ℕ, true, false, all, is_empty, refl, zero, suc, ◌+◌, ◌-◌, ◌*◌, ◌/◌, ◌%◌, ◌^◌, ◌<◌, Bytes, [], ◌∷◌,
  ◌≡◌, ap, arith, ltb, if◌then◌else◌, Bool-cases, inl, inr, ◌∙◌,
}
use forge_proxy.Strings.{is_digit}

-- One digit for each round; an int64 has at most 19.
abbrev pub max_digits : ℕ
max_digits = 20

print_digits : ℕ → ℕ → Bytes → Bytes
print_digits zero n rest = rest
print_digits (suc fuel) n rest =
    let more = print_digits fuel (n / 10) ((b'0' + n % 10) ∷ rest) in
    if ltb n 10 then (b'0' + n) ∷ rest else more

unfoldable pub format_int : ℕ → Bytes
unfolding print_digits
format_int n = print_digits max_digits n []

-- The number that a text of digits stands for.
unfoldable pub value_from : ℕ → Bytes → ℕ
value_from acc [] = acc
value_from acc (c ∷ s) = value_from (acc * 10 + (c - b'0')) s

value_from-print_digits :
    (fuel n : ℕ) (rest : Bytes)
    → n < 10 ^ fuel
    → value_from 0 (print_digits fuel n rest) ≡ value_from n rest
unfolding print_digits
value_from-print_digits zero n rest h = let e : n ≡ 0 = omega arith in rw e
value_from-print_digits (suc fuel) n rest h = elim (Bool-cases (ltb n 10)) [
  | inl small ↦ rw small (unfold value_from in ap (λ k. value_from k rest) (omega arith))
  | inr big ↦ rw big (
      value_from-print_digits fuel (n / 10) ((b'0' + n % 10) ∷ rest)
        (omega (arith, pow-suc 10 fuel))
      ∙ (unfold value_from in ap (λ k. value_from k rest) (omega arith)))
]

-- Printing and reading agree on every number of at most twenty digits, so on every int64.
pub value_from-format_int : (n : ℕ) → n < 10 ^ max_digits → value_from 0 (format_int n) ≡ n
unfolding format_int value_from
value_from-format_int n h = value_from-print_digits max_digits n [] h

print_digits-digits :
    (fuel n : ℕ) (rest : Bytes)
    → all is_digit rest ≡ true
    → all is_digit (print_digits fuel n rest) ≡ true
unfolding print_digits is_digit
print_digits-digits zero n rest h = h
print_digits-digits (suc fuel) n rest h = elim (Bool-cases (ltb n 10)) [
  | inl small ↦ rw small (ground arith)
  | inr big ↦ rw big (print_digits-digits fuel (n / 10) ((b'0' + n % 10) ∷ rest) (ground arith))
]

print_digits-given :
    (fuel n : ℕ) (rest : Bytes)
    → is_empty rest ≡ false
    → is_empty (print_digits fuel n rest) ≡ false
unfolding print_digits
print_digits-given zero n rest h = h
print_digits-given (suc fuel) n rest h = elim (Bool-cases (ltb n 10)) [
  | inl small ↦ rw small refl
  | inr big ↦ rw big (print_digits-given fuel (n / 10) ((b'0' + n % 10) ∷ rest) refl)
]

-- What is printed is digits, one at least.
pub format_int-digits :
    (n : ℕ) → (all is_digit (format_int n) ≡ true) × (is_empty (format_int n) ≡ false)
unfolding format_int
format_int-digits n = (print_digits-digits max_digits n [] refl, given)
  where
    given : is_empty (print_digits max_digits n []) ≡ false
    given =
        unfold print_digits in
        elim (Bool-cases (ltb n 10)) [
          | inl small ↦ rw small refl
          | inr big ↦ rw big (print_digits-given 19 (n / 10) ((b'0' + n % 10) ∷ []) refl)
        ]
