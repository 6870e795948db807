-- ===== src/Wording.antt =====
-- Amounts written out in words: apps/core/amounts.py. A word stands for the text that the tables
-- ONES, TENS, SCALES and CURRENCIES give it.
pub mod Reading
pub mod ReadingLaws
pub mod Numbers
pub mod RoundTrip
mod Tests
use retail_system.Prelude.{
  ℕ, zero, suc, ◌/◌, ◌%◌, List, [], ◌∷◌, ◌++◌, ltb, leb, ◌==◌, if◌then◌else◌, ℤ, pos, negsuc,
}
use retail_system.Money.{half_up_ℤ}

-- `tens_ones t o` is "twenty-one", with a hyphen. The names of a currency are one and many of its
-- unit, and one and many of its hundredth.
pub data Word : Type 0 where
  ones_word tens_word : ℕ → Word
  tens_ones : ℕ → ℕ → Word
  hundred_word and_word minus_word only_word : Word
  thousand_word million_word billion_word trillion_word : Word
  whole_one whole_many part_one part_many : Word

-- `_under_thousand`, of a number below a hundred.
unfoldable pub under_hundred : ℕ → List Word
under_hundred n =
    if ltb n 20
    then ones_word n ∷ []
    else if n % 10 == 0
    then tens_word (n / 10) ∷ []
    else tens_ones (n / 10) (n % 10) ∷ []

unfoldable pub under_thousand : ℕ → List Word
unfolding under_hundred
under_thousand n =
    if ltb n 100
    then under_hundred n
    else ones_word (n / 100)
      ∷ hundred_word
      ∷ (if n % 100 == 0 then [] else and_word ∷ under_hundred (n % 100))

-- SCALES
abbrev pub scales : List (ℕ × Word)
scales =
    (1_000_000_000_000, trillion_word)
    ∷ (1_000_000_000, billion_word)
    ∷ (1_000_000, million_word)
    ∷ (1_000, thousand_word)
    ∷ []

-- What is left behind the scales.
unfoldable pub last_words : ℕ → List Word
unfolding under_thousand
last_words n =
    if n == 0 then [] else if ltb n 100 then and_word ∷ under_thousand n else under_thousand n

-- The loop over SCALES; `say` is the call of `in_words` on a count.
unfoldable pub words_over : (ℕ → List Word) → List (ℕ × Word) → ℕ → List Word
unfolding last_words
words_over say [] n = last_words n
words_over say (s ∷ ss) n =
    if leb s.0 n then say (n / s.0) ++ s.1 ∷ words_over say ss (n % s.0) else words_over say ss n

-- `in_words`, of a number that is not negative, on fuel: a count is less than its number.
unfoldable pub in_words : ℕ → ℕ → List Word
unfolding under_thousand words_over
in_words zero n = []
in_words (suc fuel) n =
    if ltb n 1_000 then under_thousand n else words_over (in_words fuel) scales n

-- With the sign.
unfoldable pub in_words_ℤ : ℤ → List Word
unfolding in_words
in_words_ℤ (pos n) = in_words (suc n) n
in_words_ℤ (negsuc n) = minus_word ∷ in_words (suc (suc n)) (suc n)

-- The amount in cents, less its sign.
unfoldable pub cents_in_words : ℕ → List Word
unfolding in_words
cents_in_words n =
    in_words (suc (n / 100)) (n / 100)
    ++ (if n / 100 == 1 then whole_one else whole_many)
      ∷ (if n % 100 == 0
          then []
          else and_word ∷ in_words (suc (n % 100)) (n % 100)
            ++ (if n % 100 == 1 then part_one else part_many) ∷ [])

unfoldable pub signed_in_words : ℤ → List Word
unfolding cents_in_words
signed_in_words (pos n) = cents_in_words n ++ only_word ∷ []
signed_in_words (negsuc n) = minus_word ∷ cents_in_words (suc n) ++ only_word ∷ []

-- `money_in_words` of the amount `n / d`, in cents, which is rounded to the cent first.
unfoldable pub money_in_words : ℤ → ℕ → List Word
unfolding half_up_ℤ signed_in_words
money_in_words n d = signed_in_words (half_up_ℤ n d)
