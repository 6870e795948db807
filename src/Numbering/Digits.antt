-- ===== src/Numbering/Digits.antt =====
-- Digits that are printed and read.
use retail_system.Prelude.{
  ℕ, zero, suc, ◌+◌, ◌-◌, ◌*◌, ◌/◌, ◌%◌, ◌≤◌, ◌<◌, ◌≡◌, refl, ap, ◌∙◌, inl, inr, false, some, List,
  [], ◌∷◌, ◌++◌, arith, ltb, Bool-cases, length, length-append, All, All-append,
}
use retail_system.Numbering.{digits, zeros, four_digits, read_digits, int_of}

-- What a text of digits says, behind what is read before it.
unfoldable pub value : ℕ → List ℕ → ℕ
value acc [] = acc
value acc (c ∷ cs) = value (10 * acc + (c - 48)) cs

abbrev pub AllDigits : List ℕ → Type 0
AllDigits = All λ c. (48 ≤ c) × (c ≤ 57)

pub value-append : (acc : ℕ) (xs ys : List ℕ) → value acc (xs ++ ys) ≡ value (value acc xs) ys
unfolding value
value-append acc [] ys = refl
value-append acc (x ∷ xs) ys = value-append (10 * acc + (x - 48)) xs ys

pub digits_lem : (fuel n : ℕ) → n < fuel → AllDigits (digits fuel n) × (value 0 (digits fuel n) ≡ n)
unfolding digits value
digits_lem zero n b = absurd (omega (arith, b))
digits_lem (suc f) n b = elim (Bool-cases (ltb n 10)) [
  | inl e ↦ rw e ((((omega arith, ground (arith, e)), tt)), omega arith)
  | inr e ↦
      let (a, v) = digits_lem f (n / 10) (ground (arith, e, b)) in
      rw (e, value-append 0 (digits f (n / 10)) ((48 + n % 10) ∷ []), v)
        (
          All-append _ (digits f (n / 10)) ((48 + n % 10) ∷ []) a ((omega arith, omega arith), tt),
          omega arith,
        )
]

zeros_lem : (k : ℕ) → AllDigits (zeros k) × (value 0 (zeros k) ≡ 0)
unfolding zeros value
zeros_lem zero = (tt, refl)
zeros_lem (suc k) = let (a, v) = zeros_lem k in (((omega arith, omega arith), a), v)

pub four_digits_lem : (n : ℕ) → AllDigits (four_digits n) × (value 0 (four_digits n) ≡ n)
unfolding four_digits
four_digits_lem n =
    let k = 4 - length (digits (suc n) n) in
    let (a, v) = zeros_lem k in
    let (b, w) = digits_lem (suc n) n (omega arith) in
    (
      All-append _ (zeros k) (digits (suc n) n) a b,
      value-append 0 (zeros k) (digits (suc n) n) ∙ ap (λ x. value x (digits (suc n) n)) v ∙ w,
    )

pub read_digits_lem :
    (acc : ℕ) (cs : List ℕ) → AllDigits cs → read_digits acc cs ≡ some (value acc cs)
unfolding read_digits value
read_digits_lem acc [] a = refl
read_digits_lem acc (c ∷ cs) a = ground (arith, a.0, read_digits_lem (10 * acc + (c - 48)) cs a.1)

length-zeros : (k : ℕ) → length (zeros k) ≡ k
unfolding zeros
length-zeros zero = refl
length-zeros (suc k) = ap suc (length-zeros k)

digits_some : (f n : ℕ) → 1 ≤ length (digits (suc f) n)
unfolding digits
digits_some f n = elim (Bool-cases (ltb n 10)) [
  | inl e ↦ rw e (omega arith)
  | inr e ↦ rw (e, length-append (digits f (n / 10)) ((48 + n % 10) ∷ [])) (omega arith)
]

digits_longer : (f g m n : ℕ) → m < f → n < g → m ≤ n → length (digits f m) ≤ length (digits g n)
unfolding digits
digits_longer zero g m n a b l = absurd (omega (arith, a))
digits_longer (suc f) zero m n a b l = absurd (omega (arith, b))
digits_longer (suc f) (suc g) m n a b l = elim (Bool-cases (ltb m 10)) [
  | inl e ↦ rw e (digits_some g n)
  | inr e ↦
      let e' : ltb n 10 ≡ false = ground (arith, e, l) in
      let p =
        digits_longer f g (m / 10) (n / 10) (ground (arith, e, a)) (ground (arith, e', b))
          (omega (arith, l)) in
      rw
        (
          e,
          e',
          length-append (digits f (m / 10)) ((48 + m % 10) ∷ []),
          length-append (digits g (n / 10)) ((48 + n % 10) ∷ []),
        )
        (omega (arith, p))
]

pub four_digits_longer : (m n : ℕ) → m ≤ n → length (four_digits m) ≤ length (four_digits n)
unfolding four_digits
four_digits_longer m n l =
    let p = digits_longer (suc m) (suc n) m n (omega arith) (omega arith) l in
    let j = 4 - length (digits (suc m) m) in
    let k = 4 - length (digits (suc n) n) in
    rw
      (
        length-append (zeros j) (digits (suc m) m),
        length-append (zeros k) (digits (suc n) n),
        length-zeros j,
        length-zeros k,
      )
      (omega (arith, p))

pub four_digits_some : (n : ℕ) → 1 ≤ length (four_digits n)
unfolding four_digits
four_digits_some n =
    let k = 4 - length (digits (suc n) n) in
    rw (length-append (zeros k) (digits (suc n) n)) (omega (arith, digits_some n n))

pub int_of_digits :
    (cs : List ℕ) (n : ℕ) → AllDigits cs → value 0 cs ≡ n → 1 ≤ length cs → int_of cs ≡ some n
unfolding int_of
int_of_digits [] n a v l = absurd (omega (arith, l))
int_of_digits (c ∷ cs) n a v l = read_digits_lem 0 (c ∷ cs) a ∙ ap some v
