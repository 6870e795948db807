-- ===== src/Wording/Reading.antt =====
-- Reading an amount back from its words, as a person does.
use retail_system.Prelude.{
  ℕ, ◌+◌, ◌*◌, Bool, true, false, List, [], ◌∷◌, if◌then◌else◌, ℤ, pos, neg,
}
use retail_system.Wording.{
  Word, ones_word, tens_word, tens_ones, hundred_word, and_word, minus_word, only_word,
  thousand_word, million_word, billion_word, trillion_word, whole_one, whole_many, part_one,
  part_many,
}

-- What has been read: thousands and more that are complete, the number being read, the whole units,
-- the hundredths, and a minus.
pub record Heard : Type 0 where
  pub total : ℕ
  pub current : ℕ
  pub whole : ℕ
  pub part : ℕ
  pub minus : Bool

abbrev pub silence : Heard
silence = record { total = 0; current = 0; whole = 0; part = 0; minus = false }

-- A scale counts what is being read; a trillion counts everything before it.
unfoldable pub hear : Word → Heard → Heard
hear (ones_word n) h = record h { current = h.current + n }
hear (tens_word t) h = record h { current = h.current + 10 * t }
hear (tens_ones t o) h = record h { current = h.current + (10 * t + o) }
hear hundred_word h = record h { current = 100 * h.current }
hear and_word h = h
hear minus_word h = record h { minus = true }
hear only_word h = h
hear thousand_word h = record h { total = h.total + 1_000 * h.current; current = 0 }
hear million_word h = record h { total = h.total + 1_000_000 * h.current; current = 0 }
hear billion_word h = record h { total = h.total + 1_000_000_000 * h.current; current = 0 }
hear trillion_word h = record h { total = 1_000_000_000_000 * (h.total + h.current); current = 0 }
hear whole_one h = record h { whole = h.total + h.current; total = 0; current = 0 }
hear whole_many h = record h { whole = h.total + h.current; total = 0; current = 0 }
hear part_one h = record h { part = h.total + h.current; total = 0; current = 0 }
hear part_many h = record h { part = h.total + h.current; total = 0; current = 0 }

unfoldable pub listen : List Word → Heard → Heard
unfolding hear
listen [] h = h
listen (w ∷ ws) h = listen ws (hear w h)

-- The number that was said, with its sign.
unfoldable pub number_heard : Heard → ℤ
number_heard h = if h.minus then neg (pos (h.total + h.current)) else pos (h.total + h.current)

-- The amount that was said, in cents.
unfoldable pub cents_heard : Heard → ℤ
cents_heard h = if h.minus then neg (pos (100 * h.whole + h.part)) else pos (100 * h.whole + h.part)
