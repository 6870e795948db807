-- ===== src/Purchasing/Orders.antt =====
-- Purchase orders of apps/purchasing/models.py, and `approve_order` of apps/purchasing/services.py.
-- Quantities are signed thousandths, which the receipt checks for itself.
use retail_system.Prelude.{
  ℕ, Bool, true, false, ◌&&◌, ◌||◌, List, [], ◌∷◌, ◌==◌, if◌then◌else◌, ℤ, pos, ◌+ℤ◌, ◌-ℤ◌, ◌*ℤ◌,
  ltb_ℤ, leb_ℤ,
}

pub data PoStatus : Type 0 where
  draft sent partial received cancelled : PoStatus

pub record PurchaseOrderLine : Type 0 where
  pub pk : ℕ
  pub order : ℕ
  pub variant : ℕ
  pub qty_ordered : ℤ
  pub qty_received : ℤ
  pub unit_cost : ℕ

pub record PurchaseOrder : Type 0 where
  pub pk : ℕ
  pub supplier : ℕ
  pub status : PoStatus

-- `PurchaseOrderLine.line_total`, in thousandths of a cent.
unfoldable pub ordered_value : PurchaseOrderLine → ℤ
ordered_value l = l.qty_ordered *ℤ pos l.unit_cost

unfoldable pub qty_outstanding : PurchaseOrderLine → ℤ
qty_outstanding l = l.qty_ordered -ℤ l.qty_received

-- `PurchaseOrder.total`, over the lines of the order.
unfoldable pub order_value : ℕ → List PurchaseOrderLine → ℤ
unfolding ordered_value
order_value k [] = pos 0
order_value k (l ∷ ls) =
    let rest = order_value k ls in if l.order == k then ordered_value l +ℤ rest else rest

-- `is_fully_received`, over the lines of the order.
unfoldable pub is_fully_received : ℕ → List PurchaseOrderLine → Bool
unfolding qty_outstanding
is_fully_received k [] = true
is_fully_received k (l ∷ ls) =
    let rest = is_fully_received k ls in
    if l.order == k then leb_ℤ (qty_outstanding l) (pos 0) && rest else rest

unfoldable pub received_any : ℕ → List PurchaseOrderLine → Bool
received_any k [] = false
received_any k (l ∷ ls) =
    let rest = received_any k ls in
    if l.order == k then ltb_ℤ (pos 0) l.qty_received || rest else rest

-- `self.status in {CANCELLED, DRAFT}`
unfoldable pub is_settled_by_hand : PoStatus → Bool
is_settled_by_hand PoStatus.draft = true
is_settled_by_hand PoStatus.cancelled = true
is_settled_by_hand _ = false

-- `order.status in {SENT, PARTIAL}`
unfoldable pub is_expected : PoStatus → Bool
is_expected PoStatus.sent = true
is_expected PoStatus.partial = true
is_expected _ = false

unfoldable pub refresh_status : PurchaseOrder → List PurchaseOrderLine → PurchaseOrder
unfolding is_settled_by_hand is_fully_received received_any
refresh_status o ls =
    if is_settled_by_hand o.status
    then o
    else if is_fully_received o.pk ls
    then record o { status = PoStatus.received }
    else if received_any o.pk ls
    then record o { status = PoStatus.partial }
    else o

unfoldable pub approve_order : PurchaseOrder → PurchaseOrder
approve_order o = record o { status = PoStatus.sent }
