-- ===== src/Wording/Numbers.antt =====
-- The words of a whole number in apps/core/amounts.py, read back.
use retail_system.Prelude.{
  ℕ, zero, suc, ◌+◌, ◌*◌, ◌/◌, ◌%◌, ◌<◌, ◌≡◌, refl, ◌∙◌, inl, inr, List, ◌∷◌, arith, ltb, leb,
  Bool-cases,
}
use retail_system.Wording.{Word, trillion_word, under_thousand, scales, words_over, in_words}
use retail_system.Wording.Reading.{Heard, hear, listen}
use retail_system.Wording.ReadingLaws.{
  listen-append, listen-under_thousand, Adds, SaysSmall, billion_scales, billions_lem,
}

small_in_words : (f : ℕ) → SaysSmall (in_words (suc f))
unfolding in_words
small_in_words f q h b e = ground (arith, listen-under_thousand q h b e)

-- Beyond a trillion, what is said of the count of trillions is what is heard before the word.
Adds-trillions :
    (q r n : ℕ) (h h' h'' : Heard)
    → n ≡ 1_000_000_000_000 * q + r
    → h.total ≡ 0
    → Adds q h h'
    → Adds r (hear trillion_word h') h''
    → Adds n h h''
unfolding hear
Adds-trillions q r n h h' h'' s t (a, w, p, m) (a', w', p', m') =
    (omega (arith, s, t, a, a'), w' ∙ w, p' ∙ p, m' ∙ m)

trillions_lem :
    (say : ℕ → List Word) (n : ℕ) (h : Heard)
    → SaysSmall say
    → (n / 1_000_000_000_000 < n
        → Adds (n / 1_000_000_000_000) h (listen (say (n / 1_000_000_000_000)) h))
    → h.total ≡ 0
    → h.current ≡ 0
    → Adds n h (listen (words_over say scales n) h)
unfolding words_over hear listen
trillions_lem say n h small ih t e =
    let q = n / 1_000_000_000_000 in
    let r = n % 1_000_000_000_000 in
    let h' = listen (say q) h in
    let rest = words_over say billion_scales r in
    elim (Bool-cases (leb 1_000_000_000_000 n)) [
      | inl c ↦
          rw (c, listen-append (say q) (trillion_word ∷ rest) h)
            (Adds-trillions q r n h h' (listen rest (hear trillion_word h')) (omega arith) t
              (ih (ground (arith, c)))
              (billions_lem say small r (hear trillion_word h') (omega arith) refl))
      | inr c ↦ rw c (billions_lem say small n h (ground (arith, c)) e)
    ]

small-Adds :
    (n : ℕ) (h : Heard)
    → n < 1_000
    → h.total ≡ 0
    → h.current ≡ 0
    → Adds n h (listen (under_thousand n) h)
small-Adds n h b t e = rw (listen-under_thousand n h b e) (omega (arith, t), refl, refl, refl)

-- A number said with more fuel than it is large is heard.
pub in_words_lem :
    (fuel n : ℕ) (h : Heard)
    → n < fuel
    → h.total ≡ 0
    → h.current ≡ 0
    → Adds n h (listen (in_words fuel n) h)
unfolding in_words
in_words_lem zero n h b t e = absurd (omega (arith, b))
in_words_lem (suc zero) n h b t e = elim (Bool-cases (ltb n 1_000)) [
  | inl c ↦ rw c (small-Adds n h (omega arith) t e)
  | inr c ↦ absurd (ground (arith, b, c))
]
in_words_lem (suc (suc f)) n h b t e = elim (Bool-cases (ltb n 1_000)) [
  | inl c ↦ rw c (small-Adds n h (ground (arith, c)) t e)
  | inr c ↦ rw c (
      trillions_lem (in_words (suc f)) n h (small_in_words f)
        (λ l. in_words_lem (suc f) (n / 1_000_000_000_000) h (omega (arith, l, b)) t e) t e)
]
