-- ===== src/Wording/ReadingLaws.antt =====
-- The words of apps/core/amounts.py say the amount.
use retail_system.Prelude.{
  ℕ, ◌+◌, ◌*◌, ◌/◌, ◌%◌, ◌<◌, ◌≡◌, refl, ap, ◌∙◌, List, [], ◌∷◌, ◌++◌, arith,
}
use retail_system.Wording.{
  Word, thousand_word, million_word, billion_word, under_hundred, under_thousand, last_words,
  words_over,
}
use retail_system.Wording.Reading.{Heard, hear, listen}

pub listen-append : (xs ys : List Word) (h : Heard) → listen (xs ++ ys) h ≡ listen ys (listen xs h)
unfolding listen
listen-append [] ys h = refl
listen-append (x ∷ xs) ys h = listen-append xs ys (hear x h)

listen-under_hundred :
    (n : ℕ) (h : Heard)
    → n < 100
    → listen (under_hundred n) h ≡ record h { current = h.current + n }
unfolding listen under_hundred hear
listen-under_hundred n h b = ground arith

pub listen-under_thousand :
    (n : ℕ) (h : Heard)
    → n < 1_000
    → h.current ≡ 0
    → listen (under_thousand n) h ≡ record h { current = n }
unfolding listen under_thousand hear
listen-under_thousand n h b e = ground (
  arith,
  listen-under_hundred n h,
  listen-under_hundred (n % 100) (record h { current = 100 * (n / 100) }),
)

-- What was heard is so much more, and nothing else of it has changed.
abbrev pub Adds : ℕ → Heard → Heard → Type 0
Adds n h h' =
    (h'.total + h'.current ≡ h.total + n)
    × (h'.whole ≡ h.whole)
    × (h'.part ≡ h.part)
    × (h'.minus ≡ h.minus)

-- The calls of `in_words` on small numbers, as they are heard.
abbrev pub SaysSmall : (ℕ → List Word) → Type 0
SaysSmall say =
    (q : ℕ) (h : Heard) → q < 1_000 → h.current ≡ 0 → listen (say q) h ≡ record h { current = q }

last_words_lem :
    (n : ℕ) (h : Heard) → n < 1_000 → h.current ≡ 0 → Adds n h (listen (last_words n) h)
unfolding last_words listen hear
last_words_lem n h b e = ground (arith, listen-under_thousand n h b e)

abbrev thousand_scales : List (ℕ × Word)
thousand_scales = (1_000, thousand_word) ∷ []

abbrev million_scales : List (ℕ × Word)
million_scales = (1_000_000, million_word) ∷ thousand_scales

abbrev pub billion_scales : List (ℕ × Word)
billion_scales = (1_000_000_000, billion_word) ∷ million_scales

module _ (say : ℕ → List Word) (small : SaysSmall say) where
  scale_lem :
      (q : ℕ) (w : Word) (rest : List Word) (h : Heard)
      → q < 1_000
      → h.current ≡ 0
      → listen (say q ++ w ∷ rest) h ≡ listen rest (hear w (record h { current = q }))
  unfolding listen
  scale_lem q w rest h b e =
      listen-append (say q) (w ∷ rest) h ∙ ap (listen (w ∷ rest)) (small q h b e)

  thousands_lem :
      (n : ℕ) (h : Heard)
      → n < 1_000_000
      → h.current ≡ 0
      → Adds n h (listen (words_over say thousand_scales n) h)
  unfolding words_over hear
  thousands_lem n h b e =
      let q = n / 1_000 in
      let h' = record h { total = h.total + 1_000 * q; current = 0 } in
      ground (
        arith,
        scale_lem q thousand_word (last_words (n % 1_000)) h,
        last_words_lem (n % 1_000) h',
        last_words_lem n h,
      )

  millions_lem :
      (n : ℕ) (h : Heard)
      → n < 1_000_000_000
      → h.current ≡ 0
      → Adds n h (listen (words_over say million_scales n) h)
  unfolding words_over hear
  millions_lem n h b e =
      let q = n / 1_000_000 in
      let h' = record h { total = h.total + 1_000_000 * q; current = 0 } in
      ground (
        arith,
        scale_lem q million_word (words_over say thousand_scales (n % 1_000_000)) h,
        thousands_lem (n % 1_000_000) h',
        thousands_lem n h,
      )

  pub billions_lem :
      (n : ℕ) (h : Heard)
      → n < 1_000_000_000_000
      → h.current ≡ 0
      → Adds n h (listen (words_over say billion_scales n) h)
  unfolding words_over hear
  billions_lem n h b e =
      let q = n / 1_000_000_000 in
      let h' = record h { total = h.total + 1_000_000_000 * q; current = 0 } in
      ground (
        arith,
        scale_lem q billion_word (words_over say million_scales (n % 1_000_000_000)) h,
        millions_lem (n % 1_000_000_000) h',
        millions_lem n h,
      )
