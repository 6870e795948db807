-- ===== src/Purchasing/OrderLaws.antt =====
-- What the guards of `post_receipt` ensure for the lines of the order.
use retail_system.Prelude.{
  ℕ, ◌≡◌, refl, inl, inr, false, ◌&&◌, none, some, List, [], ◌∷◌, arith, ◌==◌, Option-cases, pos,
  ◌≤ℤ◌, ltb_ℤ, +ℤ_parts, -ℤ_parts, All, ok, raise_if, >>=-eq-ok,
}
use retail_system.Customers.Account.{is_some_of}
use retail_system.Purchasing.Orders.{PurchaseOrderLine, PurchaseOrder, qty_outstanding}
use retail_system.Purchasing.ReceiptLaws.{with_received}
use retail_system.Purchasing.Receipts.{
  GoodsReceiptLine, GoodsReceipt, more_than_outstanding, wanted, is_wanted, check_outstanding,
  find_order, check_order,
}

-- Nothing has come in beyond what was ordered.
abbrev pub NoneBeyond : List PurchaseOrderLine → Type 0
NoneBeyond = All λ o. o.qty_received ≤ℤ o.qty_ordered

-- The lines of a delivery name lines of its own order alone.
abbrev pub IsOwn : GoodsReceipt → List PurchaseOrderLine → Type 0
IsOwn r = All λ o. is_some_of r.order o.order ≡ false → is_wanted o.pk r.lines ≡ false

wanted-none : (k : ℕ) (ls : List GoodsReceiptLine) → is_wanted k ls ≡ false → wanted k ls ≡ pos 0
unfolding wanted is_wanted
wanted-none k [] h = refl
wanted-none k (l ∷ ls) h = ground (arith, wanted-none k ls)

NoneBeyond-check :
    (r : GoodsReceipt) (k : ℕ) (os : List PurchaseOrderLine)
    → r.order ≡ some k
    → IsOwn r os
    → NoneBeyond os
    → check_outstanding k r.lines os ≡ ok tt
    → NoneBeyond (with_received r.lines os)
unfolding with_received check_outstanding qty_outstanding
NoneBeyond-check r k [] e own n h = tt
NoneBeyond-check r k (o ∷ os) e own n h =
    let (u, g, h') =
      >>=-eq-ok
        (raise_if
          (o.order == k
            && is_wanted o.pk r.lines
            && ltb_ℤ (qty_outstanding o) (wanted o.pk r.lines))
          (more_than_outstanding o.pk))
        _ h in
    (
      ground (
        arith,
        own.0,
        n.0,
        wanted-none o.pk r.lines,
        -ℤ_parts o.qty_ordered o.qty_received,
        +ℤ_parts o.qty_received (wanted o.pk r.lines),
      ),
      NoneBeyond-check r k os e own.1 n.1 h',
    )

NoneBeyond-unordered :
    (r : GoodsReceipt) (os : List PurchaseOrderLine)
    → r.order ≡ none
    → IsOwn r os
    → NoneBeyond os
    → NoneBeyond (with_received r.lines os)
unfolding with_received
NoneBeyond-unordered r [] e own n = tt
NoneBeyond-unordered r (o ∷ os) e own n = (
  ground
      (arith, own.0, n.0, wanted-none o.pk r.lines, +ℤ_parts o.qty_received (wanted o.pk r.lines)),
  NoneBeyond-unordered r os e own.1 n.1,
)

-- A delivery whose order passes the checks receives nothing beyond what was ordered.
pub NoneBeyond-received :
    (r : GoodsReceipt) (orders : List PurchaseOrder) (os : List PurchaseOrderLine)
    → IsOwn r os
    → NoneBeyond os
    → check_order r orders os ≡ ok tt
    → NoneBeyond (with_received r.lines os)
unfolding check_order
NoneBeyond-received r orders os own n h = elim (Option-cases r.order) [
  | inl e ↦ NoneBeyond-unordered r os e own n
  | inr (k, e) ↦ elim (Option-cases (find_order k orders)) [
    | inl f ↦ ground arith
    | inr (o, f) ↦ ground (arith, NoneBeyond-check r k os e own n)
  ]
]
