-- ===== src/Wording/Tests.antt =====
-- Amounts in words, and the theorems at them.
use retail_system.Prelude.{◌≡◌, refl, [], ◌∷◌, negsuc, neg}
use retail_system.Money.{half_up_ℤ}
use retail_system.Wording.{
  ones_word, tens_word, hundred_word, and_word, minus_word, only_word, thousand_word, whole_many,
  part_one, in_words, money_in_words,
}
use retail_system.Wording.Reading.{silence, listen, cents_heard}
use retail_system.Wording.RoundTrip.{money_in_words_reads_back}

-- "one thousand and fifty", but "one thousand one hundred".
and_run :
    (in_words 2_000 1_050 ≡ ones_word 1 ∷ thousand_word ∷ and_word ∷ tens_word 5 ∷ [])
    × (in_words 2_000 1_100 ≡ ones_word 1 ∷ thousand_word ∷ ones_word 1 ∷ hundred_word ∷ [])
unfolding in_words
and_run = (refl, refl)

-- "minus fifteen shillings and one cent only", of an amount that is half a cent further down.
money_run :
    money_in_words (negsuc 15_004) 10
    ≡ minus_word ∷ ones_word 15 ∷ whole_many ∷ and_word ∷ ones_word 1 ∷ part_one ∷ only_word ∷ []
unfolding money_in_words neg
money_run = refl

money_in_words_reads_back_example :
    cents_heard (listen (money_in_words (negsuc 15_004) 10) silence) ≡ half_up_ℤ (negsuc 15_004) 10
money_in_words_reads_back_example = money_in_words_reads_back (negsuc 15_004) 10
