-- ===== src/Numbering.antt =====
-- Numbers of documents: `next_reference` of apps/purchasing/services.py, which
-- apps/selling/services.py repeats for a field of its own, and `save_with_number` of
-- apps/core/numbering.py. A text is the list of its characters.
pub mod Digits
pub mod Order
pub mod Fresh
pub mod Saving
pub mod ByText
mod Tests
use retail_system.Prelude.{
  ℕ, zero, suc, ◌+◌, ◌-◌, ◌*◌, ◌/◌, ◌%◌, Bool, true, false, not, ◌&&◌, ◌||◌, Option, none, some,
  List, [], ◌∷◌, ◌++◌, ltb, leb, ◌==◌, if◌then◌else◌, length,
}

-- `str(n)`, on fuel.
unfoldable pub digits : ℕ → ℕ → List ℕ
digits zero n = []
digits (suc fuel) n = if ltb n 10 then (48 + n) ∷ [] else digits fuel (n / 10) ++ (48 + n % 10) ∷ []

unfoldable pub zeros : ℕ → List ℕ
zeros zero = []
zeros (suc n) = 48 ∷ zeros n

-- `f"{n:04d}"`
unfoldable pub four_digits : ℕ → List ℕ
unfolding digits zeros
four_digits n = zeros (4 - length (digits (suc n) n)) ++ digits (suc n) n

-- `int(text)` of digits alone, with what is read before them.
unfoldable pub read_digits : ℕ → List ℕ → Option ℕ
read_digits acc [] = some acc
read_digits acc (c ∷ cs) =
    if leb 48 c && leb c 57 then read_digits (10 * acc + (c - 48)) cs else none

unfoldable pub int_of : List ℕ → Option ℕ
unfolding read_digits
int_of [] = none
int_of (c ∷ cs) = read_digits 0 (c ∷ cs)

-- `text[len(stem):]`, where the text starts with the stem.
unfoldable pub after_stem : List ℕ → List ℕ → Option (List ℕ)
after_stem [] cs = some cs
after_stem (s ∷ ss) [] = none
after_stem (s ∷ ss) (c ∷ cs) = if s == c then after_stem ss cs else none

-- The order of texts.
unfoldable pub text_before : List ℕ → List ℕ → Bool
text_before [] [] = false
text_before [] (d ∷ ds) = true
text_before (c ∷ cs) [] = false
text_before (c ∷ cs) (d ∷ ds) = ltb c d || (c == d && text_before cs ds)

-- `order_by(Length("reference").desc(), "-reference")`, from the other end: the shorter first.
unfoldable pub number_before : List ℕ → List ℕ → Bool
unfolding text_before
number_before cs ds = ltb (length cs) (length ds) || (length cs == length ds && text_before cs ds)

unfoldable pub later_number : List ℕ → Option (List ℕ) → Option (List ℕ)
unfolding number_before
later_number cs none = some cs
later_number cs (some ds) = some (if number_before cs ds then ds else cs)

-- The end of the last reference with the stem, and how many there are.
unfoldable pub last_number : List ℕ → List (List ℕ) → Option (List ℕ)
unfolding after_stem later_number
last_number stem [] = none
last_number stem (r ∷ rs) =
    let rest = last_number stem rs in
    elim (after_stem stem r) [ none ↦ rest | some cs ↦ later_number cs rest ]

unfoldable pub count_with : List ℕ → List (List ℕ) → ℕ
unfolding after_stem
count_with stem [] = 0
count_with stem (r ∷ rs) =
    let rest = count_with stem rs in elim (after_stem stem r) [ none ↦ rest | some cs ↦ suc rest ]

unfoldable pub next_counter : List ℕ → List (List ℕ) → ℕ
unfolding last_number int_of count_with
next_counter stem rs = elim (last_number stem rs) [
  | none ↦ 1
  | some cs ↦ elim (int_of cs) [ none ↦ count_with stem rs + 1 | some n ↦ n + 1 ]
]

-- `stem` is the prefix and the year in two digits.
unfoldable pub next_reference : List ℕ → List (List ℕ) → List ℕ
unfolding next_counter four_digits
next_reference stem rs = stem ++ four_digits (next_counter stem rs)

-- An attempt to save: the numbers that are there when one is generated, and those that are there
-- when the row is inserted. Another writer may come between the two.
pub record Attempt : Type 0 where
  pub seen : List (List ℕ)
  pub stored : List (List ℕ)

abbrev pub eqb_chars : List ℕ → List ℕ → Bool
eqb_chars [] [] = true
eqb_chars [] (d ∷ ds) = false
eqb_chars (c ∷ cs) [] = false
eqb_chars (c ∷ cs) (d ∷ ds) = c == d && eqb_chars cs ds

-- The unique constraint on the column.
unfoldable pub is_number_taken : List ℕ → List (List ℕ) → Bool
is_number_taken n [] = false
is_number_taken n (r ∷ rs) = eqb_chars r n || is_number_taken n rs

-- The row that stands after a save: the one that is inserted, or another that `recover` finds.
pub data SavedAs (A : Type 0) : Type 0 where
  inserted : List ℕ → SavedAs A
  recovered : A → SavedAs A

-- `save_with_number`, over the attempts that it makes; none is the collision that is raised.
unfoldable pub save_with_number :
    {A : Type 0}
    → (List (List ℕ) → List ℕ)
    → (Attempt → Option A)
    → List Attempt
    → Option (SavedAs A)
unfolding is_number_taken
save_with_number generate recover [] = none
save_with_number generate recover (a ∷ later) =
    let rest = save_with_number generate recover later in
    if not (is_number_taken (generate a.seen) a.stored)
    then some (inserted (generate a.seen))
    else elim (recover a) [ none ↦ rest | some found ↦ some (recovered found) ]
