-- ===== src/Decimal/Tests.antt =====
-- Decimal arithmetic, evaluated as `decimal` evaluates it.
use automated_trading_bot.Prelude.{◌≡◌, refl, true, false}
use automated_trading_bot.Prelude.Int.{pos, negsuc}
use automated_trading_bot.Decimal.{of_ℕ, add, neg, div, eq_dec, decimals}

third :
    div (of_ℕ 2) (of_ℕ 3)
    ≡ record { negative = false; coefficient = 6666666666666666666666666667; exponent = negsuc 27 }
unfolding decimals
third = refl

quarter :
    div (of_ℕ 10) (of_ℕ 4) ≡ record { negative = false; coefficient = 25; exponent = negsuc 0 }
unfolding decimals
quarter = refl

tens : eq_dec (div (of_ℕ 100) (of_ℕ 10)) (of_ℕ 10) ≡ true
unfolding decimals
tens = refl

loss : add (of_ℕ 3) (neg (of_ℕ 5)) ≡ record { negative = true; coefficient = 2; exponent = pos 0 }
unfolding decimals
loss = refl

-- A negation of 30 digits rounds to 28.
rounded :
    neg (of_ℕ 111111111111111111111111111119)
    ≡ record { negative = true; coefficient = 1111111111111111111111111111; exponent = pos 2 }
unfolding decimals
rounded = refl
