-- ===== src/Numbering/Tests.antt =====
-- The ten-thousandth order of a year, and the theorems at it.
use retail_system.Prelude.{ℕ, ◌≡◌, refl, ◌≢◌, inl, inr, none, some, List, [], ◌∷◌, ◌++◌, All}
use retail_system.Numbering.{
  four_digits, after_stem, next_reference, Attempt, SavedAs, save_with_number,
}
use retail_system.Numbering.ByText.{next_sale_number}
use retail_system.Numbering.Fresh.{IsNumbered, next_reference_fresh}
use retail_system.Numbering.Saving.{save_with_number_saves}

-- "PO26"
abbrev stem : List ℕ
stem = 80 ∷ 79 ∷ 50 ∷ 54 ∷ []

-- "PO269999", "PO260007" and "GR260001"
abbrev references : List (List ℕ)
references =
    (stem ++ 57 ∷ 57 ∷ 57 ∷ 57 ∷ [])
    ∷ (stem ++ 48 ∷ 48 ∷ 48 ∷ 55 ∷ [])
    ∷ (71 ∷ 82 ∷ 50 ∷ 54 ∷ 48 ∷ 48 ∷ 48 ∷ 49 ∷ [])
    ∷ []

-- "PO2610000", and then "PO2610001"
abbrev ten_thousandth : List ℕ
ten_thousandth = stem ++ 49 ∷ 48 ∷ 48 ∷ 48 ∷ 48 ∷ []

next_run :
    (next_reference stem references ≡ ten_thousandth)
    × (next_reference stem (ten_thousandth ∷ references) ≡ stem ++ 49 ∷ 48 ∷ 48 ∷ 48 ∷ 49 ∷ [])
unfolding next_reference
next_run = (refl, refl)

references-IsNumbered : All (IsNumbered stem) references
unfolding after_stem four_digits
references-IsNumbered = (inr (9_999, refl), (inr (7, refl), (inl refl, tt)))

next_reference_fresh_example :
    let next = next_reference stem references in
    All (λ r. r ≢ next) references × All (IsNumbered stem) (next ∷ references)
next_reference_fresh_example = next_reference_fresh stem references references-IsNumbered

-- Another writer takes the number of the first attempt.
abbrev attempts : List Attempt
attempts =
    record { seen = references; stored = ten_thousandth ∷ references }
    ∷ record { seen = references; stored = references }
    ∷ []

save_with_number_saves_example :
    (r : SavedAs ℕ) × (save_with_number (next_reference stem) (λ a. none) attempts ≡ some r)
save_with_number_saves_example =
    save_with_number_saves stem (λ a. none) attempts
      (references-IsNumbered, (references-IsNumbered, tt)) (inr (inl refl))

-- As texts the ten-thousandth stands before "9999", and its number is given out again.
by_text_run :
    (next_sale_number stem references ≡ some ten_thousandth)
    × (next_sale_number stem (ten_thousandth ∷ references) ≡ some ten_thousandth)
unfolding next_sale_number
by_text_run = (refl, refl)
