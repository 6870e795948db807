-- ===== src/Purchasing/PostedLaws.antt =====
-- A delivery is put into stock once: its movements point back at it.
use retail_system.Prelude.{
  ℕ, ◌≡◌, refl, Bool, true, false, ◌||◌, some, List, [], ◌∷◌, arith, ◌==◌, pos, ltb_ℤ, length, ok,
  >>=-eq-ok,
}
use retail_system.Inventory.Movement.{Request, movement_of, write_movement, record_movement}
use retail_system.Inventory.State.{Source, Stock}
use retail_system.Purchasing.Receipts.{
  GoodsReceiptLine, GoodsReceipt, Receiving, all_positive, is_receipt, is_posted,
  get_or_create_batch, receipt_request, lift_movement, stock_line, stock_lines,
}

-- A product of the delivery whose stock is kept.
unfoldable pub any_tracked : Stock → List GoodsReceiptLine → Bool
any_tracked s [] = false
any_tracked s (l ∷ ls) = s.tracked l.variant || any_tracked s ls

any_tracked_rules :
    (s s' : Stock) (ls : List GoodsReceiptLine)
    → s'.tracked ≡ s.tracked
    → any_tracked s' ls ≡ any_tracked s ls
unfolding any_tracked
any_tracked_rules s s' [] e = refl
any_tracked_rules s s' (l ∷ ls) e = rw (e, any_tracked_rules s s' ls e)

is_posted-record_movement :
    (k : ℕ) (req : Request) (s s' : Stock)
    → req.source ≡ some (Source.of_receipt k)
    → ltb_ℤ (pos 0) req.qty_delta ≡ true
    → record_movement req s ≡ ok s'
    → (is_posted k s'.ledger ≡ (s.tracked req.variant || is_posted k s.ledger))
      × (s'.tracked ≡ s.tracked)
unfolding record_movement write_movement movement_of is_posted is_receipt
is_posted-record_movement k req s s' e p h = ground arith

pub is_posted-stock_lines :
    (r : GoodsReceipt) (ls : List GoodsReceiptLine) (w w' : Receiving)
    → all_positive ls ≡ true
    → stock_lines r ls w ≡ ok w'
    → is_posted r.pk w'.stock.ledger ≡ (any_tracked w.stock ls || is_posted r.pk w.stock.ledger)
unfolding stock_lines stock_line receipt_request all_positive any_tracked
is_posted-stock_lines r [] w w' p h = ground arith
is_posted-stock_lines r (l ∷ ls) w w' p h =
    let (w₁, e, h') = >>=-eq-ok (stock_line r l w) _ h in
    let got = get_or_create_batch l w.batches in
    let (s, f, e') =
      >>=-eq-ok (lift_movement (record_movement (receipt_request r l got.0) w.stock)) _ e in
    ground (
      arith,
      is_posted-record_movement r.pk (receipt_request r l got.0) w.stock s,
      is_posted-stock_lines r ls w₁ w',
      any_tracked_rules w.stock s ls,
    )

pub any_tracked-some :
    (s : Stock) (ls : List GoodsReceiptLine) → any_tracked s ls ≡ true → (length ls == 0) ≡ false
unfolding any_tracked
any_tracked-some s [] h = cc
any_tracked-some s (l ∷ ls) h = ground arith
