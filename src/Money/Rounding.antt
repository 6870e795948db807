-- ===== src/Money/Rounding.antt =====
-- The bounds of the roundings.
use retail_system.Prelude.{ℕ, ◌+◌, ◌*◌, ◌≤◌, ◌<◌, ◌≡◌, ◌⊎◌, inl, inr, arith, ℤ, pos, negsuc, ◌≤ℤ◌}
use retail_system.Money.{half_up, half_up_ℤ, half_even}

pub half_up_bounds :
    (n d : ℕ) → 0 < d → (2 * (half_up n d * d) ≤ 2 * n + d) × (2 * n < 2 * (half_up n d * d) + d)
unfolding half_up
half_up_bounds n d h = grind arith

pub half_even_bounds :
    (n d : ℕ)
    → 0 < d
    → (2 * (half_even n d * d) ≤ 2 * n + d) × (2 * n ≤ 2 * (half_even n d * d) + d)
unfolding half_even
half_even_bounds n d h = grind arith

pub half_up_unique :
    (n d q : ℕ) → 0 < d → 2 * (q * d) ≤ 2 * n + d → 2 * n < 2 * (q * d) + d → half_up n d ≡ q
half_up_unique n d q h a b = grind (arith, half_up_bounds n d h)

pub half_up_mono : (m n d : ℕ) → 0 < d → m ≤ n → half_up m d ≤ half_up n d
half_up_mono m n d h a = grind (arith, half_up_bounds m d h, half_up_bounds n d h)

pub half_up_exact : (q d : ℕ) → 0 < d → half_up (q * d) d ≡ q
half_up_exact q d h = half_up_unique (q * d) d q h (omega arith) (omega arith)

-- A value between two whole numbers rounds to one between them.
pub half_even_between :
    (lo hi n d : ℕ) → 0 < d → lo * d ≤ n → n ≤ hi * d → (lo ≤ half_even n d) × (half_even n d ≤ hi)
half_even_between lo hi n d h a b = grind (arith, half_even_bounds n d h)

pub half_up_between :
    (lo hi n d : ℕ) → 0 < d → lo * d ≤ n → n ≤ hi * d → (lo ≤ half_up n d) × (half_up n d ≤ hi)
half_up_between lo hi n d h a b = grind (arith, half_up_bounds n d h)

pub half_up_ℤ_nonneg : (a : ℤ) (d : ℕ) → pos 0 ≤ℤ a → pos 0 ≤ℤ half_up_ℤ a d
unfolding half_up_ℤ
half_up_ℤ_nonneg (pos m) d h = omega arith
half_up_ℤ_nonneg (negsuc m) d h = absurd (omega arith)

le-cases : (m n : ℕ) → m ≤ n → (m ≡ n) ⊎ (m < n)
le-cases m n h = ground arith

pub half_even_mono : (m n d : ℕ) → 0 < d → m ≤ n → half_even m d ≤ half_even n d
half_even_mono m n d h a = elim (le-cases m n a) [
  | inl e ↦ rw e (omega arith)
  | inr b ↦ grind (arith, half_even_bounds m d h, half_even_bounds n d h)
]
