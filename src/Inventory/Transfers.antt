-- ===== src/Inventory/Transfers.antt =====
-- `send_transfer` and `receive_transfer` of apps/inventory/services.py.
use retail_system.Prelude.{
  ℕ, Bool, true, false, not, Option, none, some, List, [], ◌∷◌, if◌then◌else◌, ℤ, pos, neg, ltb_ℤ,
  Result, ok, ◌>>=◌, ◌>>◌, raise_if,
}
use retail_system.Inventory.Movement.{Request, record_movement}
use retail_system.Inventory.State.{
  MovementReason, Source, Stock, StockError, not_draft, not_sent, get_stock_item,
}

pub data TransferStatus : Type 0 where
  draft sent received cancelled : TransferStatus

pub record TransferLine : Type 0 where
  pub pk : ℕ
  pub variant : ℕ
  pub batch : Option ℕ
  pub qty_sent : ℤ
  pub qty_received : Option ℤ
  pub unit_cost : Option ℕ

pub record Transfer : Type 0 where
  pub pk : ℕ
  pub from_branch : ℕ
  pub to_branch : ℕ
  pub status : TransferStatus
  pub lines : List TransferLine
  pub sent_at : Option ℕ
  pub received_at : Option ℕ

unfoldable pub out_request : Transfer → TransferLine → Request
out_request t l = record {
  variant = l.variant;
  qty_delta = neg l.qty_sent;
  reason = MovementReason.transfer_out;
  branch = t.from_branch;
  batch = l.batch;
  unit_cost = none;
  source = some (Source.of_transfer t.pk);
  allow_negative = none;
}

-- One round of the loop of `send_transfer`: the line takes the average cost of the moment with it.
unfoldable pub send_line :
    Transfer → TransferLine → Stock → Result StockError (TransferLine × Stock)
unfolding out_request get_stock_item
send_line t l s = do
  let (item, items) = get_stock_item t.from_branch l.variant s.items
  s' ← record_movement (out_request t l) (record s { items = items })
  ok (record l { unit_cost = some item.avg_cost }, s')

unfoldable pub send_lines :
    Transfer → List TransferLine → Stock → Result StockError (List TransferLine × Stock)
unfolding send_line
send_lines t [] s = ok ([], s)
send_lines t (l ∷ ls) s = do
  (l', s') ← send_line t l s
  (ls', s'') ← send_lines t ls s'
  ok (l' ∷ ls', s'')

abbrev pub is_draft : TransferStatus → Bool
is_draft TransferStatus.draft = true
is_draft _ = false

abbrev pub is_sent : TransferStatus → Bool
is_sent TransferStatus.sent = true
is_sent _ = false

unfoldable pub send_transfer : ℕ → Transfer → Stock → Result StockError (Transfer × Stock)
unfolding send_lines
send_transfer now t s = do
  raise_if (not (is_draft t.status)) not_draft
  (lines, s') ← send_lines t t.lines s
  ok (record t { status = TransferStatus.sent; lines = lines; sent_at = some now }, s')

unfoldable pub in_request : Transfer → TransferLine → ℤ → Request
in_request t l qty = record {
  variant = l.variant;
  qty_delta = qty;
  reason = MovementReason.transfer_in;
  branch = t.to_branch;
  batch = l.batch;
  unit_cost = l.unit_cost;
  source = some (Source.of_transfer t.pk);
  allow_negative = none;
}

-- `counted.get(line.pk, line.qty_sent)`
unfoldable pub counted_qty : (ℕ → Option ℤ) → TransferLine → ℤ
counted_qty counted l = elim (counted l.pk) [ none ↦ l.qty_sent | some q ↦ q ]

-- One round of the loop of `receive_transfer`.
unfoldable pub receive_line :
    Transfer → (ℕ → Option ℤ) → TransferLine → Stock → Result StockError (TransferLine × Stock)
unfolding in_request counted_qty
receive_line t counted l s = do
  let qty = counted_qty counted l
  s' ← (if ltb_ℤ (pos 0) qty then record_movement (in_request t l qty) s else ok s)
  ok (record l { qty_received = some qty }, s')

unfoldable pub receive_lines :
    Transfer
    → (ℕ → Option ℤ)
    → List TransferLine
    → Stock
    → Result StockError (List TransferLine × Stock)
unfolding receive_line
receive_lines t counted [] s = ok ([], s)
receive_lines t counted (l ∷ ls) s = do
  (l', s') ← receive_line t counted l s
  (ls', s'') ← receive_lines t counted ls s'
  ok (l' ∷ ls', s'')

unfoldable pub receive_transfer :
    ℕ → Transfer → (ℕ → Option ℤ) → Stock → Result StockError (Transfer × Stock)
unfolding receive_lines
receive_transfer now t counted s = do
  raise_if (not (is_sent t.status)) not_sent
  (lines, s') ← receive_lines t counted t.lines s
  ok (record t { status = TransferStatus.received; lines = lines; received_at = some now }, s')
