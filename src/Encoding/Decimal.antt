-- ===== src/Encoding/Decimal.antt =====
-- `strconv.FormatInt` of a number that is not negative, and `strconv.ParseInt`, base 10 and 64 bits.
use lecrm.Common.{
  ℕ, zero, suc, ◌+◌, ◌-◌, ◌*◌, ◌/◌, ◌%◌, ◌≤◌, ◌<◌, ◌≡◌, ◌≢◌, refl, arith, ◌&&◌, Option, none, some,
  List, [], ◌∷◌, ◌++◌, All, eqb, leb, ltb, if◌then◌else◌, Bool-cases, inl, inr,
}
use lecrm.Common.Int.{ℤ, pos, negsuc}

-- Each round takes the last digit off; the number itself is fuel enough.
unfoldable pub digits : ℕ → ℕ → List ℕ
digits zero n = []
digits (suc f) n =
    let rest = digits f (n / 10) in
    if ltb n 10 then (n + b'0') ∷ [] else rest ++ (n % 10 + b'0') ∷ []

unfoldable pub format_int : ℕ → List ℕ
unfolding digits
format_int n = digits (suc n) n

unfoldable pub parse_from : ℕ → List ℕ → Option ℕ
parse_from acc [] = some acc
parse_from acc (c ∷ s) =
    if leb b'0' c && leb c b'9' then parse_from (acc * 10 + (c - b'0')) s else none

abbrev pub int_limit : ℕ
int_limit = 9223372036854775808

abbrev nonneg : Option ℕ → Option ℤ
nonneg none = none
nonneg (some n) = if ltb n int_limit then some (pos n) else none

abbrev negate : Option ℕ → Option ℤ
negate none = none
negate (some zero) = some (pos 0)
negate (some (suc n)) = if ltb n int_limit then some (negsuc n) else none

abbrev some_digits : List ℕ → Option ℕ
some_digits [] = none
some_digits (c ∷ s) = parse_from 0 (c ∷ s)

unfoldable pub parse_int : List ℕ → Option ℤ
unfolding parse_from
parse_int [] = none
parse_int (c ∷ s) =
    if eqb c b'-'
    then negate (some_digits s)
    else if eqb c b'+'
    then nonneg (some_digits s)
    else nonneg (some_digits (c ∷ s))

abbrev then_parse : Option ℕ → List ℕ → Option ℕ
then_parse none s = none
then_parse (some n) s = parse_from n s

parse_from-append :
    (acc : ℕ) (xs ys : List ℕ) → parse_from acc (xs ++ ys) ≡ then_parse (parse_from acc xs) ys
unfolding parse_from
parse_from-append acc [] ys = refl
parse_from-append acc (c ∷ xs) ys = ground (arith, parse_from-append (acc * 10 + (c - b'0')) xs ys)

digit_value : (d : ℕ) → d < 10 → d + b'0' - b'0' ≡ d
digit_value d h = omega arith

parse_from-digits : (f n : ℕ) → n < f → parse_from 0 (digits f n) ≡ some n
unfolding digits
parse_from-digits zero n h = absurd (omega arith)
parse_from-digits (suc f) n h = elim (Bool-cases (ltb n 10)) [
  | inl small ↦ rw small (unfold parse_from in ground arith)
  | inr large ↦ rw large (
      rw (parse_from-append 0 (digits f (n / 10)) ((n % 10 + b'0') ∷ []))
        (rw (parse_from-digits f (n / 10) (ground arith)) (unfold parse_from in ground arith)))
]

abbrev IsDigit : ℕ → Type 0
IsDigit c = (b'0' ≤ c) × (c ≤ b'9')

All-snoc : (xs : List ℕ) (c : ℕ) → All IsDigit xs → IsDigit c → All IsDigit (xs ++ c ∷ [])
All-snoc [] c h k = (k, tt)
All-snoc (x ∷ xs) c h k = (h.0, All-snoc xs c h.1 k)

digits-IsDigit : (f n : ℕ) → All IsDigit (digits f n)
unfolding digits
digits-IsDigit zero n = tt
digits-IsDigit (suc f) n = elim (Bool-cases (ltb n 10)) [
  | inl small ↦ rw small (ground arith)
  | inr large ↦
      rw large
        (All-snoc (digits f (n / 10)) (n % 10 + b'0') (digits-IsDigit f (n / 10)) (omega arith))
]

plain_digits :
    (xs : List ℕ) (n : ℕ)
    → All IsDigit xs
    → xs ≢ []
    → parse_from 0 xs ≡ some n
    → n < int_limit
    → parse_int xs ≡ some (pos n)
plain_digits [] n d h e k = absurd (h refl)
plain_digits (c ∷ s) n d h e k = unfold parse_int in ground arith

snoc-ne-nil : (xs : List ℕ) (c : ℕ) → xs ++ c ∷ [] ≢ []
snoc-ne-nil [] c = λ e. cc
snoc-ne-nil (x ∷ xs) c = λ e. cc

digits-ne-nil : (f n : ℕ) → digits (suc f) n ≢ []
unfolding digits
digits-ne-nil f n = elim (Bool-cases (ltb n 10)) [
  | inl small ↦ rw small (λ e. cc)
  | inr large ↦ rw large (snoc-ne-nil (digits f (n / 10)) (n % 10 + b'0'))
]

no_dot : (xs : List ℕ) → All IsDigit xs → All (λ c. c ≢ b'.') xs
no_dot [] h = tt
no_dot (c ∷ xs) h = ((λ e. omega arith), no_dot xs h.1)

-- A number below 2^63 that is printed parses as itself.
pub parse_int-format_int : (n : ℕ) → n < int_limit → parse_int (format_int n) ≡ some (pos n)
unfolding format_int
parse_int-format_int n h =
    plain_digits (digits (suc n) n) n (digits-IsDigit (suc n) n) (digits-ne-nil n n)
      (parse_from-digits (suc n) n (omega arith)) h

-- A printed number holds no full stop.
pub format_int-no_dot : (n : ℕ) → All (λ c. c ≢ b'.') (format_int n)
unfolding format_int
format_int-no_dot n = no_dot (digits (suc n) n) (digits-IsDigit (suc n) n)
