-- ===== src/Numbering/Saving.antt =====
-- A document is saved under a number of its own: `save_with_number` of apps/core/numbering.py.
use retail_system.Prelude.{
  ℕ, ◌≡◌, refl, ◌≢◌, ◌⊎◌, inl, inr, true, false, Option, some, List, [], ◌∷◌, arith, Bool-cases,
  Option-cases, All,
}
use retail_system.Numbering.{
  next_reference, Attempt, eqb_chars, is_number_taken, SavedAs, inserted, recovered,
  save_with_number,
}
use retail_system.Numbering.Fresh.{IsNumbered, next_reference_fresh}

eqb_chars_sound : (xs ys : List ℕ) → eqb_chars xs ys ≡ true → xs ≡ ys
eqb_chars_sound [] [] h = refl
eqb_chars_sound [] (y ∷ ys) h = cc
eqb_chars_sound (x ∷ xs) [] h = cc
eqb_chars_sound (x ∷ xs) (y ∷ ys) h = ground (arith, eqb_chars_sound xs ys)

is_number_taken-none :
    (n : List ℕ) (rs : List (List ℕ)) → All (λ r. r ≢ n) rs → is_number_taken n rs ≡ false
unfolding is_number_taken
is_number_taken-none n [] a = refl
is_number_taken-none n (r ∷ rs) a =
    ground (arith, a.0, eqb_chars_sound r n, is_number_taken-none n rs a.1)

-- An attempt into which no other writer comes.
abbrev pub AnyQuiet : List Attempt → Type 0
AnyQuiet [] = ⊥
AnyQuiet (a ∷ later) = (a.stored ≡ a.seen) ⊎ AnyQuiet later

-- An attempt that fails although its number was free was not quiet.
still_quiet :
    (a : Attempt) (later : List Attempt) (n : List ℕ)
    → AnyQuiet (a ∷ later)
    → is_number_taken n a.stored ≡ true
    → is_number_taken n a.seen ≡ false
    → AnyQuiet later
still_quiet a later n (inl e) t f = absurd (ground (arith, e, t, f))
still_quiet a later n (inr q) t f = q

-- A document with a reference is saved, or one saved before is found, as soon as no other writer
-- comes into one of the attempts.
pub save_with_number_saves :
    {A : Type 0} (stem : List ℕ) (recover : Attempt → Option A) (attempts : List Attempt)
    → All (λ a. All (IsNumbered stem) a.seen) attempts
    → AnyQuiet attempts
    → (r : SavedAs A) × (save_with_number (next_reference stem) recover attempts ≡ some r)
unfolding save_with_number
save_with_number_saves stem recover [] n q = absurd q
save_with_number_saves stem recover (a ∷ later) n q =
    let next = next_reference stem a.seen in
    elim (Bool-cases (is_number_taken next a.stored)) [
      | inr e ↦ (inserted next, ground (arith, e))
      | inl e ↦ elim (Option-cases (recover a)) [
        | inr (found, f) ↦ (recovered found, ground (arith, e, f))
        | inl f ↦
            let free = is_number_taken-none next a.seen (next_reference_fresh stem a.seen n.0).0 in
            let (r, g) =
              save_with_number_saves stem recover later n.1 (still_quiet a later next q e free) in
            (r, ground (arith, e, f, g))
      ]
    ]
