-- ===== src/Wording/RoundTrip.antt =====
-- The words of apps/core/amounts.py, read back.
use retail_system.Prelude.{
  ℕ, suc, ◌+◌, ◌*◌, ◌/◌, ◌%◌, ◌≡◌, refl, ap, ◌∙◌, inl, inr, Bool, true, false, List, [], ◌∷◌, ◌++◌,
  arith, ◌==◌, if◌then◌else◌, Bool-cases, ℤ, pos, negsuc, neg,
}
use retail_system.Money.{half_up_ℤ}
use retail_system.Wording.{
  Word, and_word, only_word, whole_one, whole_many, part_one, part_many, in_words, in_words_ℤ,
  cents_in_words, signed_in_words, money_in_words,
}
use retail_system.Wording.Numbers.{in_words_lem}
use retail_system.Wording.Reading.{Heard, silence, hear, listen, number_heard, cents_heard}
use retail_system.Wording.ReadingLaws.{listen-append, Adds}

signed :
    (n : ℕ) (h h' : Heard)
    → h.total ≡ 0
    → Adds n h h'
    → number_heard h' ≡ (if h.minus then neg (pos n) else pos n)
unfolding number_heard
signed n h h' t a = ground (arith, a)

neg_pos : (n : ℕ) → neg (pos (suc n)) ≡ negsuc n
unfolding neg
neg_pos n = ground arith

-- A whole number written out in words, as long as it may be, reads back as that number.
pub in_words_reads_back : (n : ℤ) → number_heard (listen (in_words_ℤ n) silence) ≡ n
unfolding in_words_ℤ listen hear
in_words_reads_back (pos n) =
    signed n silence (listen (in_words (suc n) n) silence) refl
      (in_words_lem (suc n) n silence (omega arith) refl refl)
in_words_reads_back (negsuc n) =
    let h = record silence { minus = true } in
    signed (suc n) h (listen (in_words (suc (suc n)) (suc n)) h) refl
      (in_words_lem (suc (suc n)) (suc n) h (omega arith) refl refl)
    ∙ neg_pos n

hear_whole :
    (b : Bool) (h : Heard)
    → hear (if b then whole_one else whole_many) h
      ≡ record h { whole = h.total + h.current; total = 0; current = 0 }
unfolding hear
hear_whole true h = refl
hear_whole false h = refl

hear_part :
    (b : Bool) (h : Heard)
    → hear (if b then part_one else part_many) h
      ≡ record h { part = h.total + h.current; total = 0; current = 0 }
unfolding hear
hear_part true h = refl
hear_part false h = refl

-- The hundredths, once the units are heard.
part_lem :
    (r : ℕ) (b : Bool) (h : Heard)
    → h.total ≡ 0
    → h.current ≡ 0
    → let h' =
        listen (and_word ∷ in_words (suc r) r ++ (if b then part_one else part_many) ∷ []) h in
      (h'.part ≡ r) × (h'.whole ≡ h.whole) × (h'.minus ≡ h.minus)
unfolding listen hear
part_lem r b h t c =
    let say = in_words (suc r) r in
    let h₁ = listen say h in
    let (sum, w, p, m) = in_words_lem (suc r) r h (omega arith) t c in
    rw (listen-append say ((if b then part_one else part_many) ∷ []) h, hear_part b h₁)
      (omega (arith, sum, t), w, m)

-- The units, and what stands behind them.
whole_lem :
    (q : ℕ) (b : Bool) (rest : List Word) (h : Heard)
    → h.total ≡ 0
    → h.current ≡ 0
    → h.part ≡ 0
    → (h' : Heard) × (listen (in_words (suc q) q ++ (if b then whole_one else whole_many) ∷ rest) h
        ≡ listen rest h')
      × (h'.total ≡ 0)
      × (h'.current ≡ 0)
      × (h'.whole ≡ q)
      × (h'.part ≡ 0)
      × (h'.minus ≡ h.minus)
unfolding listen
whole_lem q b rest h t c p =
    let say = in_words (suc q) q in
    let h₁ = listen say h in
    let (sum, _, p', m) = in_words_lem (suc q) q h (omega arith) t c in
    (
      record h₁ { whole = h₁.total + h₁.current; total = 0; current = 0 },
      listen-append say ((if b then whole_one else whole_many) ∷ rest) h
          ∙ ap (listen rest) (hear_whole b h₁),
      refl,
      refl,
      omega (arith, sum, t),
      p' ∙ p,
      m,
    )

listen-only : (xs : List Word) (h : Heard) → listen (xs ++ only_word ∷ []) h ≡ listen xs h
unfolding listen hear
listen-only xs h = listen-append xs (only_word ∷ []) h

-- What stands behind the units.
abbrev behind : ℕ → List Word
behind r =
    if r == 0
    then []
    else and_word ∷ in_words (suc r) r ++ (if r == 1 then part_one else part_many) ∷ []

behind_lem :
    (r : ℕ) (h : Heard)
    → h.total ≡ 0
    → h.current ≡ 0
    → h.part ≡ 0
    → let h' = listen (behind r) h in (h'.part ≡ r) × (h'.whole ≡ h.whole) × (h'.minus ≡ h.minus)
unfolding listen
behind_lem r h t c p = elim (Bool-cases (r == 0)) [
  | inl e ↦ rw e (ground (arith, e, p), refl, refl)
  | inr e ↦ rw e (part_lem r (r == 1) h t c)
]

-- The amount less its sign, as it is heard.
cents_lem :
    (n : ℕ) (h : Heard)
    → h.total ≡ 0
    → h.current ≡ 0
    → h.part ≡ 0
    → let h' = listen (cents_in_words n) h in (100 * h'.whole + h'.part ≡ n) × (h'.minus ≡ h.minus)
unfolding cents_in_words
cents_lem n h t c p =
    let (h', e, t', c', w', p', m') =
      whole_lem (n / 100) (n / 100 == 1) (behind (n % 100)) h t c p in
    let (p'', w'', m'') = behind_lem (n % 100) h' t' c' p' in
    rw e (omega (arith, p'', w'', w'), m'' ∙ m')

signed_cents :
    (n : ℕ) (h : Heard)
    → h.total ≡ 0
    → h.current ≡ 0
    → h.part ≡ 0
    → cents_heard (listen (cents_in_words n ++ only_word ∷ []) h)
      ≡ (if h.minus then neg (pos n) else pos n)
unfolding cents_heard
signed_cents n h t c p = rw (listen-only (cents_in_words n) h) (ground (arith, cents_lem n h t c p))

signed_reads_back : (a : ℤ) → cents_heard (listen (signed_in_words a) silence) ≡ a
unfolding signed_in_words listen hear
signed_reads_back (pos n) = signed_cents n silence refl refl refl
signed_reads_back (negsuc n) =
    signed_cents (suc n) (record silence { minus = true }) refl refl refl ∙ neg_pos n

-- The words on an invoice say its amount: read back, they come to the amount rounded to the cent,
-- with its sign, however large it is.
pub money_in_words_reads_back :
    (n : ℤ) (d : ℕ) → cents_heard (listen (money_in_words n d) silence) ≡ half_up_ℤ n d
unfolding money_in_words
money_in_words_reads_back n d = signed_reads_back (half_up_ℤ n d)
