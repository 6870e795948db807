-- ===== src/Till/Tests.antt =====
-- Runs of the till, and its theorems at a concrete shop.
use retail_system.Prelude.{
  ℕ, ◌≡◌, refl, true, false, [], ◌∷◌, pos, ◌+ℤ◌, ◌-ℤ◌, ◌*ℤ◌, neg, err, ok, get_ok,
}
use retail_system.Customers.Account.{balance}
use retail_system.Inventory.Ledger.{IsConsistent}
use retail_system.Inventory.Movement.{record_movement}
use retail_system.Inventory.State.{find_item, item_or_new, save_item, quantity_of}
use retail_system.Inventory.Transit.{at_branch}
use retail_system.Till.AmountLaws.{line_totals}
use retail_system.Till.Amounts.{subtotal, tax_total, total}
use retail_system.Till.Checkout.{is_empty, complete_sale}
use retail_system.Till.CheckoutLaws.{credit_charged, complete_sale_idempotent, complete_sale_effect}
use retail_system.Till.Sample.{
  goods, goods-IsConsistent, morning, basket, checkout, done, sale_run, not_stored,
}
use retail_system.Till.Sold.{sold}
use retail_system.Till.State.{SaleStatus, Till, not_completed}
use retail_system.Till.Void.{void_sale}
use retail_system.Till.VoidLaws.{void_undoes_sale}

amount_run :
    (line_totals basket ≡ pos 3623)
    × (total basket ≡ pos 3623)
    × (tax_total basket ≡ pos 525)
    × (subtotal basket ≡ 3723)
unfolding line_totals total tax_total subtotal ◌+ℤ◌ ◌*ℤ◌
amount_run = (refl, refl, refl, refl)

sale_figures :
    (done.0.total ≡ pos 3623)
    × (done.0.tax_total ≡ pos 525)
    × (quantity_of 1 5 done.1.stock.items ≡ pos 7000)
    × (balance 7 done.1.account ≡ pos 2000)
unfolding complete_sale record_movement item_or_new find_item save_item quantity_of balance ◌+ℤ◌
    ◌*ℤ◌ neg
sale_figures = (refl, refl, refl, refl)

complete_sale_idempotent_example : complete_sale checkout done.1 ≡ ok (done.0, done.1)
unfolding is_empty
complete_sale_idempotent_example =
    complete_sale_idempotent checkout checkout morning done.1 done.0 77 refl refl refl sale_run

complete_sale_effect_example :
    ((b v : ℕ)
      → quantity_of b v done.1.stock.items
        ≡ quantity_of b v goods.items -ℤ at_branch b 1 (sold goods v basket))
    × IsConsistent done.1.stock
    × ((customer : ℕ)
        → balance customer done.1.account ≡ balance customer [] +ℤ credit_charged checkout customer)
    × (done.1.sales ≡ done.0 ∷ [])
    × (done.0.total ≡ total basket)
complete_sale_effect_example =
    complete_sale_effect checkout morning done.1 done.0 goods-IsConsistent not_stored sale_run

abbrev undone : Till
undone = get_ok done.1 (void_sale 1 false done.1)

void_run : void_sale 1 false done.1 ≡ ok undone
unfolding complete_sale void_sale record_movement item_or_new find_item save_item ◌+ℤ◌ ◌-ℤ◌ ◌*ℤ◌ neg
void_run = refl

void_undoes_sale_example :
    ((b v : ℕ) → quantity_of b v undone.stock.items ≡ quantity_of b v goods.items)
    × ((customer : ℕ) → balance customer undone.account ≡ balance customer [])
    × IsConsistent undone.stock
    × (undone.sales ≡ record done.0 { status = SaleStatus.voided } ∷ [])
    × (void_sale 1 true undone ≡ err not_completed)
void_undoes_sale_example =
    void_undoes_sale checkout morning done.1 undone done.0 false true goods-IsConsistent tt
      not_stored sale_run void_run
