-- ===== src/Numbering/Fresh.antt =====
-- The next reference is a new one: `next_reference` and `save_with_number`.
use retail_system.Prelude.{
  ℕ, ◌+◌, ◌≤◌, ◌<◌, ◌≡◌, refl, ap, ◌∙◌, ◌≢◌, ◌⊎◌, inl, inr, true, false, none, some, List, [], ◌∷◌,
  ◌++◌, arith, ltb, ◌==◌, Bool-cases, All,
}
use retail_system.Numbering.{
  four_digits, int_of, after_stem, text_before, number_before, later_number, last_number,
  next_counter, next_reference,
}
use retail_system.Numbering.Order.{number_before_lem, int_of-four_digits}

-- A reference that starts with the stem has a number behind it that was printed.
abbrev pub IsNumbered : List ℕ → List ℕ → Type 0
IsNumbered stem r =
    (after_stem stem r ≡ none) ⊎ ((m : ℕ) × (after_stem stem r ≡ some (four_digits m)))

after_stem-append : (stem cs : List ℕ) → after_stem stem (stem ++ cs) ≡ some cs
unfolding after_stem
after_stem-append [] cs = refl
after_stem-append (s ∷ ss) cs = ground (arith, after_stem-append ss cs)

text_before_asym : (xs ys : List ℕ) → text_before xs ys ≡ true → text_before ys xs ≡ false
unfolding text_before
text_before_asym [] [] h = cc
text_before_asym [] (y ∷ ys) h = refl
text_before_asym (x ∷ xs) [] h = cc
text_before_asym (x ∷ xs) (y ∷ ys) h = ground (arith, text_before_asym xs ys)

number_before_asym : (xs ys : List ℕ) → number_before xs ys ≡ true → number_before ys xs ≡ false
unfolding number_before
number_before_asym xs ys h = ground (arith, text_before_asym xs ys)

-- Of two printed numbers the larger is kept.
later_number_lem :
    (m n : ℕ)
    → (k : ℕ) × (later_number (four_digits m) (some (four_digits n)) ≡ some (four_digits k))
      × (m ≤ k)
      × (n ≤ k)
unfolding later_number
later_number_lem m n = elim (Bool-cases (ltb m n)) [
  | inl e ↦
      (n, ground (arith, number_before_lem m n (ground (arith, e))), ground (arith, e), omega arith)
  | inr e ↦ elim (Bool-cases (m == n)) [
    | inl f ↦
        let same : m ≡ n = ground (arith, f) in
        (n, ground (arith, same), ground (arith, f), omega arith)
    | inr f ↦
        let less : n < m = ground (arith, e, f) in
        let back =
          number_before_asym (four_digits n) (four_digits m) (number_before_lem n m less) in
        (m, ground (arith, back), omega arith, omega (arith, less))
  ]
]

-- No reference with the stem has a number beyond the bound.
abbrev AllUpTo : List ℕ → ℕ → List (List ℕ) → Type 0
AllUpTo stem n = All λ r. (m : ℕ) → after_stem stem r ≡ some (four_digits m) → m ≤ n

four_digits_inj : (m n : ℕ) → four_digits m ≡ four_digits n → m ≡ n
four_digits_inj m n e = ground (arith, int_of-four_digits m, int_of-four_digits n, ap int_of e)

AllUpTo-weaken :
    (stem : List ℕ) (n k : ℕ) (rs : List (List ℕ)) → n ≤ k → AllUpTo stem n rs → AllUpTo stem k rs
AllUpTo-weaken stem n k [] l a = tt
AllUpTo-weaken stem n k (r ∷ rs) l a =
    ((λ m e. omega (arith, l, a.0 m e)), AllUpTo-weaken stem n k rs l a.1)

no_number :
    (stem r : List ℕ) (k : ℕ)
    → after_stem stem r ≡ none
    → (m : ℕ) → after_stem stem r ≡ some (four_digits m)
    → m ≤ k
no_number stem r k e m f = cc

one_number :
    (stem r : List ℕ) (n k : ℕ)
    → after_stem stem r ≡ some (four_digits n)
    → n ≤ k
    → (m : ℕ) → after_stem stem r ≡ some (four_digits m)
    → m ≤ k
one_number stem r n k e l m f =
    let same : four_digits m ≡ four_digits n = cc in
    let e' = four_digits_inj m n same in omega (arith, e', l)

last_number_lem :
    (stem : List ℕ) (rs : List (List ℕ))
    → All (IsNumbered stem) rs
    → ((last_number stem rs ≡ none) × AllUpTo stem 0 rs)
      ⊎ ((n : ℕ) × (last_number stem rs ≡ some (four_digits n)) × AllUpTo stem n rs)
unfolding last_number
last_number_lem stem [] a = inl (refl, tt)
last_number_lem stem (r ∷ rs) a = elim a.0 [
  | inl e ↦ elim (last_number_lem stem rs a.1) [
    | inl (f, b) ↦ inl (ground (arith, e, f), (no_number stem r 0 e, b))
    | inr (n, f, b) ↦ inr (n, ground (arith, e, f), (no_number stem r n e, b))
  ]
  | inr (m, e) ↦ elim (last_number_lem stem rs a.1) [
    | inl (f, b) ↦ inr (
      m,
      ground (arith, e, f),
      (one_number stem r m m e (omega arith), AllUpTo-weaken stem 0 m rs (omega arith) b),
    )
    | inr (n, f, b) ↦
        let (k, g, l, l') = later_number_lem m n in
        inr
          (k, ground (arith, e, f, g), (one_number stem r m k e l, AllUpTo-weaken stem n k rs l' b))
  ]
]

not_beyond :
    (stem : List ℕ) (n : ℕ) (rs : List (List ℕ))
    → AllUpTo stem n rs
    → All (λ r. r ≢ stem ++ four_digits (n + 1)) rs
not_beyond stem n [] a = tt
not_beyond stem n (r ∷ rs) a = (
  λ e.
      let l = a.0 (n + 1) (ap (after_stem stem) e ∙ after_stem-append stem (four_digits (n + 1))) in
      absurd (omega (arith, l)),
  not_beyond stem n rs a.1,
)

next_reference_after :
    (stem : List ℕ) (rs : List (List ℕ)) (n : ℕ)
    → next_counter stem rs ≡ n
    → next_reference stem rs ≡ stem ++ four_digits n
unfolding next_reference
next_reference_after stem rs n e = ap (λ k. stem ++ four_digits k) e

next_counter_lem :
    (stem : List ℕ) (rs : List (List ℕ))
    → All (IsNumbered stem) rs
    → (n : ℕ) × (next_counter stem rs ≡ n + 1) × AllUpTo stem n rs
unfolding next_counter
next_counter_lem stem rs a = elim (last_number_lem stem rs a) [
  | inl (e, b) ↦ (0, ground (arith, e), b)
  | inr (n, e, b) ↦ (n, ground (arith, e, int_of-four_digits n), b)
]

-- The next reference is one that no document has, and the documents with it are numbered as before,
-- however many there are.
pub next_reference_fresh :
    (stem : List ℕ) (rs : List (List ℕ))
    → All (IsNumbered stem) rs
    → let next = next_reference stem rs in
      All (λ r. r ≢ next) rs × All (IsNumbered stem) (next ∷ rs)
next_reference_fresh stem rs a =
    let (n, e, b) = next_counter_lem stem rs a in
    let e' = next_reference_after stem rs (n + 1) e in
    rw e' (not_beyond stem n rs b, (inr (n + 1, after_stem-append stem (four_digits (n + 1))), a))
