-- ===== src/Till/Scale.antt =====
-- Figures in parts of a thousandth and of a cent: about `check_sale` of apps/pos/validation.py and
-- `add_to_cart` of apps/pos/services.py.
use native.Mathlib.Nat.{le_of_mul-le-mul_left, mul-pos, mul-div-mul_left, mul-sub}
use retail_system.Prelude.{ℕ, ◌+◌, ◌-◌, ◌*◌, ◌/◌, ◌%◌, ◌≤◌, ◌<◌, ◌≡◌, ap, ◌∙◌, arith}
use retail_system.Money.{half_up}
use retail_system.Money.Rounding.{half_up_unique, half_up_exact}

pub whole_up : (n f : ℕ) → 0 < f → n % f ≡ 0 → f * half_up n f ≡ n
whole_up n f z h =
    let e : n ≡ (n / f) * f = grind arith in
    let up : half_up n f ≡ n / f = ap (λ x. half_up x f) e ∙ half_up_exact (n / f) f z in
    rw up (grind arith)

-- A fraction and what it comes to in whole units round alike.
half_up_scaled : (n d k : ℕ) → 0 < k → half_up (k * n) (k * d) ≡ half_up n d
unfolding half_up
half_up_scaled n d k z =
    let top : 2 * (k * n) + k * d ≡ k * (2 * n + d) = omega arith in
    let bottom : 2 * (k * d) ≡ k * (2 * d) = omega arith in
    rw (top, bottom) (mul-div-mul_left (2 * n + d) (2 * d) z)

-- A charge of whole thousandths and cents, worked out in parts.
pub whole_charge :
    (f q p d : ℕ)
    → 0 < f
    → 1000 * (f * (f * d)) ≤ f * q * (f * p)
    → (1000 * d ≤ q * p)
      × (half_up (f * q * (f * p) - 1000 * (f * (f * d))) (1000 * (f * f))
          ≡ half_up (q * p - 1000 * d) 1000)
whole_charge f q p d z h =
    let positive : 0 < f * f = mul-pos z z in
    let gross : f * q * (f * p) ≡ f * f * (q * p) = grind arith in
    let off : 1000 * (f * (f * d)) ≡ f * f * (1000 * d) = grind arith in
    let parts : 1000 * (f * f) ≡ f * f * 1000 = omega arith in
    (
      le_of_mul-le-mul_left (rw (gross, off) at h) positive,
      rw (gross, off, parts, ← mul-sub (f * f) (q * p) (1000 * d))
          (half_up_scaled (q * p - 1000 * d) 1000 (f * f) positive),
    )

pub half_up_zero : (f : ℕ) → 0 < f → half_up 0 f ≡ 0
half_up_zero f z = half_up_unique 0 f 0 z (omega arith) (omega arith)
