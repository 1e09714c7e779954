-- ===== src/Decimal/Signed.antt =====
-- `strconv.ParseInt` and `strconv.Atoi` in base ten with 64 bits.
use forge_proxy.Base.{
  ℕ, ◌-◌, ◌<◌, ◌^◌, Bytes, true, false, not, ◌||◌, [], ◌∷◌, ◌≡◌, ap, ◌∙◌, Option, none, some, arith,
  ltb, leb, lt→ltb, ◌==◌, all, is_empty, if◌then◌else◌,
}
use forge_proxy.Strings.{is_digit}
use forge_proxy.Decimal.{format_int, value_from, value_from-format_int, format_int-digits}

-- An int64.
pub data ℤ : Type 0 where
  pos negsuc : ℕ → ℤ

magnitude : Bytes → Option ℕ
unfolding value_from is_digit
magnitude s = if is_empty s || not (all is_digit s) then none else some (value_from 0 s)

positive : Option ℕ → Option ℤ
positive none = none
positive (some n) = if ltb n (2 ^ 63) then some (pos n) else none

negative : Option ℕ → Option ℤ
negative none = none
negative (some n) =
    if n == 0 then some (pos 0) else if leb n (2 ^ 63) then some (negsuc (n - 1)) else none

-- `strconv.ParseInt` in base ten with 64 bits.
unfoldable pub parse_int : Bytes → Option ℤ
unfolding magnitude positive negative
parse_int [] = none
parse_int (c ∷ s) =
    if c == b'-'
    then negative (magnitude s)
    else if c == b'+'
    then positive (magnitude s)
    else positive (magnitude (c ∷ s))

magnitude-digits :
    (s : Bytes) → all is_digit s ≡ true → is_empty s ≡ false → magnitude s ≡ some (value_from 0 s)
unfolding magnitude
magnitude-digits s d e = rw (e, d)

unsigned :
    (s : Bytes) → all is_digit s ≡ true → is_empty s ≡ false → parse_int s ≡ positive (magnitude s)
unfolding parse_int is_digit
unsigned [] d e = absurd cc
unsigned (c ∷ s) d e = ground arith

-- The id that a key's row was printed with is the one that is read.
pub parse_int-format_int : (n : ℕ) → n < 2 ^ 63 → parse_int (format_int n) ≡ some (pos n)
parse_int-format_int n h =
    let (digits, given) = format_int-digits n in
    unsigned (format_int n) digits given
    ∙ ap positive (magnitude-digits (format_int n) digits given)
    ∙ ap (λ v. positive (some v)) (value_from-format_int n (omega arith))
    ∙ (unfold positive in rw (lt→ltb n (2 ^ 63) h))
