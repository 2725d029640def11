-- ===== src/Decimal.antt =====
-- Python's `decimal.Decimal` for finite values, in the default context of the program: 28 digits,
-- ROUND_HALF_EVEN. A value is (-1)^negative * coefficient * 10^exponent. Exponents are unbounded
-- here, so the context's overflow and underflow traps (beyond 10^999999) are not modelled, and
-- where an operand of a sum is zero the result may carry another exponent of the same value.
pub mod Order
mod Tests
use automated_trading_bot.Prelude.{
  ℕ, zero, suc, ◌+◌, ◌-◌, ◌*◌, ◌/◌, ◌%◌, ◌^◌, Bool, true, false, ◌&&◌, not, List, foldl, ltb, leb,
  ◌==◌, if◌then◌else◌,
}
use automated_trading_bot.Prelude.Int.{
  ℤ, pos, negsuc, pos_part, neg_part, ◌+ℤ◌, ◌-ℤ◌, ltb_ℤ, leb_ℤ, min_ℤ,
}

pub record Decimal : Type 0 where
  pub negative : Bool
  pub coefficient : ℕ
  pub exponent : ℤ

abbrev pub of_ℕ : ℕ → Decimal
of_ℕ n = record { negative = false; coefficient = n; exponent = pos 0 }

abbrev pub zero_dec : Decimal
zero_dec = of_ℕ 0

abbrev prec : ℕ
prec = 28

-- The number of decimal digits of a coefficient, at most the fuel.
digit_count : ℕ → ℕ → ℕ
digit_count zero c = 1
digit_count (suc f) c = elim (ltb c 10) [ true ↦ 1 | false ↦ suc (digit_count f (c / 10)) ]

-- Round a coefficient to `prec` digits, the last one to even on a tie.
half_even : ℕ → ℕ → ℕ
half_even c unit =
    let q = c / unit in
    let r = 2 * (c % unit) in if ltb unit r then q + 1 else if r == unit then q + q % 2 else q

pub fix : Bool → ℕ → ℤ → Decimal
fix s c e =
    let n = digit_count c c in
    if leb n prec then record { negative = s; coefficient = c; exponent = e } else record {
      negative = s;
      coefficient = half_even c (10 ^ (n - prec));
      exponent = e +ℤ pos (n - prec);
    }

-- The coefficient of a value at a lower exponent.
aligned : Decimal → ℤ → ℕ
aligned a e = a.coefficient * 10 ^ pos_part (a.exponent -ℤ e)

low_exponent : Decimal → Decimal → ℤ
low_exponent a b = min_ℤ a.exponent b.exponent

-- `x.copy_negate()`, which neither rounds nor looks at the value
copy_negate : Decimal → Decimal
copy_negate a = record a { negative = not a.negative }

-- `-x`: rounded to the context like every other operation, and never a negative zero.
pub neg : Decimal → Decimal
neg a = fix (not a.negative && not (a.coefficient == 0)) a.coefficient a.exponent

same : Bool → Bool → Bool
same true s = s
same false s = not s

-- `x + y`: operands of one sign add up, the others cancel towards the larger.
pub add : Decimal → Decimal → Decimal
add a b =
    let e = low_exponent a b in
    let x = aligned a e in
    let y = aligned b e in
    if same a.negative b.negative
    then fix a.negative (x + y) e
    else if ltb y x
    then fix a.negative (x - y) e
    else fix (b.negative && not (x == y)) (y - x) e

pub sub : Decimal → Decimal → Decimal
sub a b = add a (copy_negate b)

pub mul : Decimal → Decimal → Decimal
mul a b =
    fix (if a.negative then not b.negative else b.negative) (a.coefficient * b.coefficient)
      (a.exponent +ℤ b.exponent)

-- Drop trailing zeros, at most as many as the exponent lies below the ideal one.
strip_zeros : ℕ → ℕ → ℕ × ℕ
strip_zeros zero c = (c, 0)
strip_zeros (suc gap) c =
    let rest = strip_zeros gap (c / 10) in if c % 10 == 0 then rest else (c, suc gap)

-- A quotient with a remainder is marked inexact by its last digit, so that rounding sees no tie.
sticky : ℕ → ℕ → ℕ
sticky q r = if r == 0 then q else if q % 5 == 0 then q + 1 else q

-- `x / y` for y ≠ 0; the code divides by nothing else.
pub div : Decimal → Decimal → Decimal
div a b =
    let s = if a.negative then not b.negative else b.negative in
    let ideal = a.exponent -ℤ b.exponent in
    let shift =
      pos (digit_count b.coefficient b.coefficient + prec + 1)
      -ℤ pos (digit_count a.coefficient a.coefficient) in
    let x = a.coefficient * 10 ^ pos_part shift in
    let y = b.coefficient * 10 ^ neg_part shift in
    let q = x / y in
    let r = x % y in
    let (c, gap) = strip_zeros (pos_part shift) q in
    if a.coefficient == 0
    then record { negative = s; coefficient = 0; exponent = ideal }
    else if r == 0
    then fix s c (if leb_ℤ (pos 0) shift then ideal -ℤ pos gap else ideal -ℤ shift)
    else fix s (sticky q r) (ideal -ℤ shift)

-- A value as an integer, in units of a power of ten at or below its exponent.
signed : Decimal → ℤ → ℤ
signed a e = let c = aligned a e in if a.negative then pos 0 -ℤ pos c else pos c

pub ltb_dec : Decimal → Decimal → Bool
ltb_dec a b = let e = low_exponent a b in ltb_ℤ (signed a e) (signed b e)

unfoldable pub leb_dec : Decimal → Decimal → Bool
leb_dec a b = not (ltb_dec b a)

-- `x == y`, by value: 1.0 == 1.00
pub eq_dec : Decimal → Decimal → Bool
eq_dec a b = not (ltb_dec a b) && not (ltb_dec b a)

pub min_dec : Decimal → Decimal → Decimal
min_dec a b = if ltb_dec b a then b else a

-- `sum(values, Decimal(0))`
pub sum_dec : List Decimal → Decimal
sum_dec = foldl add zero_dec

-- What a test by evaluation unfolds.
unfoldable pub decimals : Unit {0}
unfolding digit_count half_even fix aligned low_exponent same copy_negate neg add sub mul
    strip_zeros sticky div signed ltb_dec leb_dec eq_dec min_dec sum_dec ◌+ℤ◌ ◌-ℤ◌
decimals = tt
