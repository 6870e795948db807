-- ===== src/Inventory/Counts.antt =====
-- `apply_count` of apps/inventory/services.py, with `StockCountLine.variance` of
-- apps/inventory/models.py.
use retail_system.Prelude.{
  ℕ, ◌+◌, Bool, true, false, not, ◌&&◌, ◌||◌, Option, none, some, List, [], ◌∷◌, ◌==◌,
  if◌then◌else◌, ℤ, pos, ◌-ℤ◌, eqb_ℤ, Result, ok, ◌>>=◌, ◌>>◌, raise_if,
}
use retail_system.Inventory.Movement.{Request, record_movement}
use retail_system.Inventory.State.{
  MovementReason, Source, StockItem, Stock, StockError, already_applied,
}

pub data CountStatus : Type 0 where
  counting applied cancelled : CountStatus

pub record CountLine : Type 0 where
  pub variant : ℕ
  pub system_qty : ℤ
  pub counted_qty : Option ℤ

pub record StockCount : Type 0 where
  pub pk : ℕ
  pub branch : ℕ
  pub status : CountStatus
  pub lines : List CountLine
  pub applied_at : Option ℕ

-- `variance`
unfoldable pub variance : CountLine → Option ℤ
variance l = elim l.counted_qty [ none ↦ none | some q ↦ some (q -ℤ l.system_qty) ]

unfoldable pub count_request : StockCount → CountLine → ℤ → Request
count_request c l d = record {
  variant = l.variant;
  qty_delta = d;
  reason = MovementReason.count;
  branch = c.branch;
  batch = none;
  unit_cost = none;
  source = some (Source.of_count c.pk);
  allow_negative = some true;
}

-- One round of the loop: what it applied, none or one.
unfoldable pub apply_line : StockCount → CountLine → Stock → Result StockError (ℕ × Stock)
unfolding variance count_request
apply_line c l s = elim (variance l) [
  | none ↦ ok (0, s)
  | some d ↦
      if eqb_ℤ d (pos 0)
      then ok (0, s)
      else record_movement (count_request c l d) s >>= λ s'. ok (1, s')
]

unfoldable pub apply_lines : StockCount → List CountLine → Stock → Result StockError (ℕ × Stock)
unfolding apply_line
apply_lines c [] s = ok (0, s)
apply_lines c (l ∷ ls) s = do
  (n, s') ← apply_line c l s
  (m, s'') ← apply_lines c ls s'
  ok (n + m, s'')

abbrev pub is_counting : CountStatus → Bool
is_counting CountStatus.counting = true
is_counting _ = false

unfoldable pub was_counted : ℕ → List CountLine → Bool
was_counted v [] = false
was_counted v (l ∷ ls) =
    let rest = was_counted v ls in
    elim l.counted_qty [ none ↦ rest | some q ↦ v == l.variant || rest ]

-- `StockItem.objects.filter(…).update(last_counted_at=…)`
unfoldable pub stamp_counted : ℕ → StockCount → List StockItem → List StockItem
unfolding was_counted
stamp_counted now c [] = []
stamp_counted now c (i ∷ is) =
    (if c.branch == i.branch && was_counted i.variant c.lines
      then record i { last_counted_at = some now }
      else i)
    ∷ stamp_counted now c is

unfoldable pub apply_count : ℕ → StockCount → Stock → Result StockError (ℕ × StockCount × Stock)
unfolding apply_lines stamp_counted
apply_count now c s = do
  raise_if (not (is_counting c.status)) already_applied
  (n, s') ← apply_lines c c.lines s
  ok (
    n,
    record c { status = CountStatus.applied; applied_at = some now },
    record s' { items = stamp_counted now c s'.items },
  )
