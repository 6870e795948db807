-- ===== src/Numbering/Order.antt =====
-- Texts of digits stand in the order of their numbers.
use retail_system.Prelude.{ℕ, ◌+◌, ◌-◌, ◌*◌, ◌<◌, ◌≡◌, true, some, List, [], ◌∷◌, arith, length}
use retail_system.Numbering.{four_digits, read_digits, int_of, text_before, number_before}
use retail_system.Numbering.Digits.{
  value, AllDigits, four_digits_lem, four_digits_longer, four_digits_some, int_of_digits,
}

value_grows :
    (acc acc' : ℕ) (xs ys : List ℕ)
    → AllDigits xs
    → AllDigits ys
    → length xs ≡ length ys
    → acc < acc'
    → value acc xs < value acc' ys
unfolding value
value_grows acc acc' [] [] a b e l = l
value_grows acc acc' [] (y ∷ ys) a b e l = absurd (omega (arith, e))
value_grows acc acc' (x ∷ xs) [] a b e l = absurd (omega (arith, e))
value_grows acc acc' (x ∷ xs) (y ∷ ys) a b e l =
    value_grows (10 * acc + (x - 48)) (10 * acc' + (y - 48)) xs ys a.1 b.1 (omega (arith, e))
      (omega (arith, l, a.0, b.0))

text_before_lem :
    (acc : ℕ) (xs ys : List ℕ)
    → AllDigits xs
    → AllDigits ys
    → length xs ≡ length ys
    → value acc xs < value acc ys
    → text_before xs ys ≡ true
unfolding value text_before
text_before_lem acc [] [] a b e l = absurd (omega (arith, l))
text_before_lem acc [] (y ∷ ys) a b e l = absurd (omega (arith, e))
text_before_lem acc (x ∷ xs) [] a b e l = absurd (omega (arith, e))
text_before_lem acc (x ∷ xs) (y ∷ ys) a b e l =
    let back =
      value_grows (10 * acc + (y - 48)) (10 * acc + (x - 48)) ys xs b.1 a.1 (omega (arith, e)) in
    let rest = text_before_lem (10 * acc + (x - 48)) xs ys a.1 b.1 (omega (arith, e)) in
    ground (arith, l, back, rest, a.0, b.0)

-- The numbers that are printed stand in their order.
pub number_before_lem : (m n : ℕ) → m < n → number_before (four_digits m) (four_digits n) ≡ true
unfolding number_before
number_before_lem m n l =
    let (a, v) = four_digits_lem m in
    let (b, w) = four_digits_lem n in
    let longer = four_digits_longer m n (omega (arith, l)) in
    let same = (λ (e : length (four_digits m) ≡ length (four_digits n)).
      text_before_lem 0 (four_digits m) (four_digits n) a b e (omega (arith, l, v, w))) in
    ground (arith, longer, same)

pub int_of-four_digits : (n : ℕ) → int_of (four_digits n) ≡ some n
unfolding int_of read_digits
int_of-four_digits n =
    let (a, v) = four_digits_lem n in int_of_digits (four_digits n) n a v (four_digits_some n)
