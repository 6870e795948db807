-- ===== src/Money.antt =====
-- Rounding to the cent: `price`, `money` and `quantum` of apps/pos/services.py and the conversions
-- of apps/core/currency.py. An amount is a whole number of cents, a quantity of thousandths, a rate
-- of VAT or a discount of hundredths of a per cent, an exchange rate of millionths.
pub mod Rounding
use retail_system.Prelude.{
  ℕ, suc, ◌+◌, ◌*◌, ◌/◌, ◌%◌, ◌&&◌, ◌||◌, ltb, ◌==◌, if◌then◌else◌, ℤ, pos, negsuc, neg,
}

-- `quantize(…, rounding=ROUND_HALF_UP)` of `n / d`: to the nearest, a tie away from zero.
unfoldable pub half_up : ℕ → ℕ → ℕ
half_up n d = (2 * n + d) / (2 * d)

-- The same with a sign.
unfoldable pub half_up_ℤ : ℤ → ℕ → ℤ
unfolding half_up
half_up_ℤ (pos n) d = pos (half_up n d)
half_up_ℤ (negsuc n) d = neg (pos (half_up (suc n) d))

-- `quantize` with the context's own ROUND_HALF_EVEN.
unfoldable pub half_even : ℕ → ℕ → ℕ
half_even n d =
    let q = n / d in
    let r = n % d in if ltb d (2 * r) || (2 * r == d && q % 2 == 1) then q + 1 else q
