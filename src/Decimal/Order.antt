-- ===== src/Decimal/Order.antt =====
-- Comparison of decimals: equality is reflexive, and products keep their signs.
use automated_trading_bot.Prelude.{
  ℕ, zero, suc, ◌^◌, ◌<◌, ◌≡◌, Bool, true, false, ◌&&◌, not, ltb, arith, if◌then◌else◌,
}
use automated_trading_bot.Prelude.Int.{ℤ, ◌-ℤ◌, pos_part}
use automated_trading_bot.Decimal.{
  Decimal, zero_dec, aligned, signed, low_exponent, fix, digit_count, mul, ltb_dec, eq_dec,
}

ltb_dec_irrefl : (a : Decimal) → ltb_dec a a ≡ false
unfolding ltb_dec
ltb_dec_irrefl a = ground arith

pub eq_dec_refl : (a : Decimal) → eq_dec a a ≡ true
unfolding eq_dec
eq_dec_refl a = rw ltb_dec_irrefl

pow_ten_pos : (k : ℕ) → 0 < 10 ^ k
pow_ten_pos zero = omega arith
pow_ten_pos (suc k) = grind (arith, pow_ten_pos k)

aligned_pos : (a : Decimal) (e : ℤ) → ltb 0 (aligned a e) ≡ ltb 0 a.coefficient
unfolding aligned
aligned_pos a e = grind (arith, pow_ten_pos (pos_part (a.exponent -ℤ e)))

aligned_zero : (e : ℤ) → aligned zero_dec e ≡ 0
unfolding aligned
aligned_zero e = omega arith

-- A value is negative when its sign says so and its coefficient is not zero.
pub ltb_dec-zero : (a : Decimal) → ltb_dec a zero_dec ≡ (a.negative && ltb 0 a.coefficient)
unfolding ltb_dec signed ◌-ℤ◌
ltb_dec-zero a = let e = low_exponent a zero_dec in ground (arith, aligned_pos a e, aligned_zero e)

pub zero-ltb_dec : (a : Decimal) → ltb_dec zero_dec a ≡ (not a.negative && ltb 0 a.coefficient)
unfolding ltb_dec signed ◌-ℤ◌
zero-ltb_dec a = let e = low_exponent zero_dec a in ground (arith, aligned_pos a e, aligned_zero e)

pub negative-fix : (s : Bool) (c : ℕ) (e : ℤ) → (fix s c e).negative ≡ s
unfolding fix
negative-fix s c e = ground arith

pub coefficient-fix_zero : (s : Bool) (c : ℕ) (e : ℤ) → c ≡ 0 → (fix s c e).coefficient ≡ 0
unfolding fix digit_count
coefficient-fix_zero s c e h = rw h

pub negative-mul :
    (a b : Decimal) → (mul a b).negative ≡ (if a.negative then not b.negative else b.negative)
unfolding mul
negative-mul a b = rw negative-fix

pub coefficient-mul_zero : (a b : Decimal) → a.coefficient ≡ 0 → (mul a b).coefficient ≡ 0
unfolding mul
coefficient-mul_zero a b h = coefficient-fix_zero _ _ _ (rw h (omega arith))

-- A product of a value that is not negative and a positive one is not negative.
pub mul_nonneg :
    (a b : Decimal)
    → ltb_dec a zero_dec ≡ false
    → ltb_dec zero_dec b ≡ true
    → ltb_dec (mul a b) zero_dec ≡ false
mul_nonneg a b h k = ground (
  arith,
  ltb_dec-zero a,
  zero-ltb_dec b,
  ltb_dec-zero (mul a b),
  negative-mul a b,
  coefficient-mul_zero a b,
)
