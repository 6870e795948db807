-- ===== src/Numbering/ByText.antt =====
-- Numbers whose last one is found by the order of the texts alone: `next_sale_number` and
-- `next_return_number` of apps/pos/services.py, and `next_number` of apps/tenancy/billing.py.
use retail_system.Prelude.{
  ℕ, suc, ◌+◌, ◌-◌, Option, none, some, List, [], ◌∷◌, ◌++◌, if◌then◌else◌, length,
}
use retail_system.Numbering.{digits, zeros, int_of, after_stem, text_before}

unfoldable pub later_text : List ℕ → Option (List ℕ) → Option (List ℕ)
unfolding text_before
later_text cs none = some cs
later_text cs (some ds) = some (if text_before cs ds then ds else cs)

-- `order_by("-number").first()`, as far as the text behind the stem.
unfoldable pub last_by_text : List ℕ → List (List ℕ) → Option (List ℕ)
unfolding after_stem later_text
last_by_text stem [] = none
last_by_text stem (r ∷ rs) =
    let rest = last_by_text stem rs in
    elim (after_stem stem r) [ none ↦ rest | some cs ↦ later_text cs rest ]

-- The counter of the next number; none is the ValueError of `int`.
unfoldable pub counter_by_text : List ℕ → List (List ℕ) → Option ℕ
unfolding last_by_text int_of
counter_by_text stem rs = elim (last_by_text stem rs) [
  | none ↦ some 1
  | some cs ↦ elim (int_of cs) [ none ↦ none | some n ↦ some (n + 1) ]
]

-- A counter in so many digits at least.
unfoldable pub padded : ℕ → ℕ → List ℕ
unfolding digits zeros
padded width n = zeros (width - length (digits (suc n) n)) ++ digits (suc n) n

unfoldable pub next_by_text : ℕ → List ℕ → List (List ℕ) → Option (List ℕ)
unfolding counter_by_text padded
next_by_text width stem rs = elim (counter_by_text stem rs) [
  | none ↦ none
  | some n ↦ some (stem ++ padded width n)
]

-- `stem` is the branch's code and the date.
unfoldable pub next_sale_number : List ℕ → List (List ℕ) → Option (List ℕ)
unfolding next_by_text
next_sale_number stem rs = next_by_text 4 stem rs

unfoldable pub next_return_number : List ℕ → List (List ℕ) → Option (List ℕ)
unfolding next_by_text
next_return_number stem rs = next_by_text 3 stem rs

-- `stem` is INV and the year.
unfoldable pub next_bill_number : List ℕ → List (List ℕ) → Option (List ℕ)
unfolding next_by_text
next_bill_number stem rs = next_by_text 5 stem rs
