-- ===== src/Base/Decimal.antt =====
-- Decimal numbers: `strconv.Atoi` and `%d` for Go's `int` of 64 bits, as its standard library has them.
use Prim.Native.Nat.{ℕ, zero, suc, ◌+◌, ◌-◌, ◌*◌, ◌/◌, ◌%◌, ◌^◌, ◌≤◌, ◌<◌}
use mathlib.Core.Path.{◌≡◌, refl, ◌∙◌}
use mathlib.Core.Bool.{Bool, true, false, ◌&&◌}
use mathlib.Core.List.{[], ◌∷◌}
use mathlib.Core.Option.{Option, none, some}
use mathlib.Core.Logic.{inl, inr}
use native.Mathlib.Omega.{arith}
use switch_manager.Base.Tests.{ltb, leb, ◌==◌, if◌then◌else◌, Bool-cases}
use switch_manager.Base.Lists.{all, is_empty}
use switch_manager.Base.Text.{Text}
use switch_manager.Base.Int.{ℤ, pos, negsuc}

abbrev pub max_int : ℕ
max_int = 2 ^ 63 - 1

abbrev pub is_digit : ℕ → Bool
is_digit c = leb b'0' c && leb c b'9'

-- The digits of a text after a number that is read already.
unfoldable pub read_digits : ℕ → Text → Option ℕ
read_digits n [] = some n
read_digits n (c ∷ cs) =
    let rest = read_digits (n * 10 + (c - b'0')) cs in if is_digit c then rest else none

-- At least one digit, with a value that is not above the limit.
unfoldable pub read_number : ℕ → Text → Option ℕ
read_number limit text =
    if is_empty text
    then none
    else (elim (read_digits 0 text) [ none ↦ none | some n ↦ if ltb limit n then none else some n ])

abbrev negate : ℕ → ℤ
negate zero = pos zero
negate (suc n) = negsuc n

abbrev as_pos : Option ℕ → Option ℤ
as_pos none = none
as_pos (some n) = some (pos n)

abbrev as_neg : Option ℕ → Option ℤ
as_neg none = none
as_neg (some n) = some (negate n)

-- `strconv.Atoi`.
unfoldable pub atoi : Text → Option ℤ
atoi [] = none
atoi (c ∷ cs) =
    if c == b'-'
    then as_neg (read_number (suc max_int) cs)
    else if c == b'+'
    then as_pos (read_number max_int cs)
    else as_pos (read_number max_int (c ∷ cs))

-- The digits of `n` in front of `out`; each round drops one digit, so `suc n` rounds are enough.
unfoldable pub put_digits : (fuel n : ℕ) → Text → Text
put_digits zero n out = out
put_digits (suc fuel) n out = elim (ltb n 10) [
  | true ↦ (b'0' + n % 10) ∷ out
  | false ↦ put_digits fuel (n / 10) ((b'0' + n % 10) ∷ out)
]

-- `%d` of a number that is not negative, and of any `int`.
unfoldable pub show_nat : ℕ → Text
show_nat n = put_digits (suc n) n []

unfoldable pub show_int : ℤ → Text
show_int (pos n) = show_nat n
show_int (negsuc n) = b'-' ∷ show_nat (suc n)

-- A first character that is the digit 0.
abbrev pub leads_zero : Text → Bool
leads_zero [] = false
leads_zero (c ∷ cs) = c == b'0'

put_digits-last :
    (fuel n : ℕ) (out : Text)
    → ltb n 10 ≡ true
    → put_digits (suc fuel) n out ≡ (b'0' + n % 10) ∷ out
unfolding put_digits
put_digits-last fuel n out e = rw (e, put_digits) refl

put_digits-more :
    (fuel n : ℕ) (out : Text)
    → ltb n 10 ≡ false
    → put_digits (suc fuel) n out ≡ put_digits fuel (n / 10) ((b'0' + n % 10) ∷ out)
unfolding put_digits
put_digits-more fuel n out e = rw (e, put_digits) refl

read_put :
    (fuel n : ℕ) (out : Text) → n < fuel → read_digits 0 (put_digits fuel n out) ≡ read_digits n out
unfolding read_digits
read_put zero n out h = absurd (omega arith)
read_put (suc fuel) n out h = elim (Bool-cases (ltb n 10)) [
  | inl e ↦ rw (put_digits-last fuel n out e) (ground arith)
  | inr e ↦
      rw (put_digits-more fuel n out e)
        (read_put fuel (n / 10) ((b'0' + n % 10) ∷ out) (ground arith) ∙ ground arith)
]

put_digits-digits :
    (fuel n : ℕ) (out : Text)
    → all is_digit out ≡ true
    → all is_digit (put_digits fuel n out) ≡ true
unfolding put_digits
put_digits-digits zero n out h = h
put_digits-digits (suc fuel) n out h = elim (Bool-cases (ltb n 10)) [
  | inl e ↦ rw (put_digits-last fuel n out e) (ground arith)
  | inr e ↦
      rw (put_digits-more fuel n out e)
        (put_digits-digits fuel (n / 10) ((b'0' + n % 10) ∷ out) (ground arith))
]

put_digits-leads :
    (fuel n : ℕ) (out : Text) → 0 < n → n < fuel → leads_zero (put_digits fuel n out) ≡ false
put_digits-leads zero n out p h = absurd (omega arith)
put_digits-leads (suc fuel) n out p h = elim (Bool-cases (ltb n 10)) [
  | inl e ↦ rw (put_digits-last fuel n out e) (ground arith)
  | inr e ↦
      rw (put_digits-more fuel n out e)
        (put_digits-leads fuel (n / 10) ((b'0' + n % 10) ∷ out) (ground arith) (ground arith))
]

put_digits-full : (fuel n : ℕ) (out : Text) → n < fuel → is_empty (put_digits fuel n out) ≡ false
put_digits-full zero n out h = absurd (omega arith)
put_digits-full (suc fuel) n out h = elim (Bool-cases (ltb n 10)) [
  | inl e ↦ rw (put_digits-last fuel n out e) refl
  | inr e ↦
      rw (put_digits-more fuel n out e)
        (put_digits-full fuel (n / 10) ((b'0' + n % 10) ∷ out) (ground arith))
]

pub show_nat-digits : (n : ℕ) → all is_digit (show_nat n) ≡ true
unfolding show_nat
show_nat-digits n = put_digits-digits (suc n) n [] refl

pub show_nat-leads : (n : ℕ) → 0 < n → leads_zero (show_nat n) ≡ false
unfolding show_nat
show_nat-leads n p = put_digits-leads (suc n) n [] p (omega arith)

pub show_nat-full : (n : ℕ) → is_empty (show_nat n) ≡ false
unfolding show_nat
show_nat-full n = put_digits-full (suc n) n [] (omega arith)

pub read_show : (n : ℕ) → read_digits 0 (show_nat n) ≡ some n
unfolding show_nat read_digits
read_show n = read_put (suc n) n [] (omega arith)

read_number-within :
    (limit n : ℕ) (t : Text)
    → is_empty t ≡ false
    → read_digits 0 t ≡ some n
    → n ≤ limit
    → read_number limit t ≡ some n
unfolding read_number
read_number-within limit n t e r h = rw (e, r) (ground arith)

-- `Atoi` on a text of digits.
atoi-digits :
    (n : ℕ) (t : Text)
    → is_empty t ≡ false
    → all is_digit t ≡ true
    → read_digits 0 t ≡ some n
    → n ≤ max_int
    → atoi t ≡ some (pos n)
unfolding atoi
atoi-digits n [] e d r h = absurd (cc)
atoi-digits n (c ∷ cs) e d r h = ground (arith, read_number-within max_int n (c ∷ cs) refl r h)

-- What is printed is read again.
pub atoi-show : (n : ℕ) → n ≤ max_int → atoi (show_nat n) ≡ some (pos n)
atoi-show n h = atoi-digits n (show_nat n) (show_nat-full n) (show_nat-digits n) (read_show n) h

read_number-bound : (limit : ℕ) (t : Text) (n : ℕ) → read_number limit t ≡ some n → n ≤ limit
unfolding read_number
read_number-bound limit [] n h = absurd (cc)
read_number-bound limit (c ∷ cs) n h = limited (read_digits 0 (c ∷ cs)) refl
  where
    limited : (o : Option ℕ) → read_digits 0 (c ∷ cs) ≡ o → n ≤ limit
    limited none e = absurd (ground (arith, h, e))
    limited (some m) e = ground (arith, h, e)

as_pos-bound :
    (limit : ℕ) (t : Text) (n : ℕ) → as_pos (read_number limit t) ≡ some (pos n) → n ≤ limit
as_pos-bound limit t n h = read_number-bound limit t n (is_some (read_number limit t) h)
  where
    is_some : (o : Option ℕ) → as_pos o ≡ some (pos n) → o ≡ some n
    is_some none e = absurd (cc)
    is_some (some m) e = cc

as_neg-zero : (o : Option ℕ) (n : ℕ) → as_neg o ≡ some (pos n) → n ≡ 0
as_neg-zero none n h = absurd (cc)
as_neg-zero (some zero) n h = ground (arith, h)
as_neg-zero (some (suc m)) n h = absurd (ground (arith, h))

-- `Atoi` answers an `int`.
pub atoi-bound : (t : Text) (n : ℕ) → atoi t ≡ some (pos n) → n ≤ max_int
unfolding atoi
atoi-bound [] n h = absurd (cc)
atoi-bound (c ∷ cs) n h = ground (
  arith,
  as_neg-zero (read_number (suc max_int) cs) n,
  as_pos-bound max_int cs n,
  as_pos-bound max_int (c ∷ cs) n,
)
