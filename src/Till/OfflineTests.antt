-- ===== src/Till/OfflineTests.antt =====
-- Sales that a till sends, and their theorems at a concrete shop.
use retail_system.Prelude.{
  ℕ, ◌+◌, ◌≤◌, ◌≡◌, refl, ◌≢◌, false, ◌&&◌, none, some, List, [], ◌∷◌, map, arith, pos, ◌+ℤ◌, ◌-ℤ◌,
  ◌*ℤ◌, neg, length, All, err, ok, get_ok,
}
use retail_system.Access.State.{mem_key}
use retail_system.Customers.Account.{balance}
use retail_system.Inventory.Movement.{record_movement}
use retail_system.Inventory.State.{find_item, item_or_new, save_item, quantity_of}
use retail_system.Inventory.Transit.{at_branch}
use retail_system.Till.Acceptance.{line_charges, on_account, check_sale}
use retail_system.Till.AcceptanceLaws.{IsAccepted}
use retail_system.Till.CheckoutLaws.{credit_charged}
use retail_system.Till.Counter.{
  hardware, corner_shop, cashier, three_bags, typed_item, sent, taken_in, here,
}
use retail_system.Till.Filling.{cart_line, AreApart, IsOpenAtPrice, IsWhole}
use retail_system.Till.Offline.{checkout_of, named_lines, store_offline_sale}
use retail_system.Till.OfflineLaws.{store_offline_sale_effect}
use retail_system.Till.SaleLaws.{IsGranted, IsTimely, check_sale_lem}
use retail_system.Till.Sample.{morning, no_sale}
use retail_system.Till.Sold.{sold}
use retail_system.Till.State.{Sale, Till, find_uuid}
use retail_system.Till.Tender.{paid_of, slack}
use retail_system.Till.Validation.{
  PhoneLine, open_item_refused, discount_too_deep, whole_units_only, of_line, vouches,
}

check_run : check_sale cashier corner_shop [] sent ≡ ok taken_in
unfolding check_sale ◌*ℤ◌ ◌+ℤ◌
check_run = refl

check_sale_lem_example :
    (taken_in.lines ≢ [])
    × All (IsAccepted 1 hardware cashier) taken_in.lines
    × (taken_in.total ≡ line_charges 1 taken_in.lines)
    × (taken_in.total ≤ paid_of taken_in.payments + slack (length taken_in.lines))
    × (paid_of taken_in.payments ≤ taken_in.total + slack (length taken_in.lines))
    × IsGranted cashier taken_in.customer (on_account taken_in.payments)
    × IsTimely 2_000_000 taken_in.sold_at
check_sale_lem_example = check_sale_lem cashier corner_shop [] sent taken_in check_run

-- Half a bag, a discount of 20% and a typed item above the cashier's limit.
refused_run :
    (check_sale cashier corner_shop []
        (record sent { lines = record three_bags { qty = some (pos 500); discount = none } ∷ [] })
      ≡ err (of_line whole_units_only))
    × (check_sale cashier corner_shop []
          (record sent { lines = record three_bags { discount = some (pos 708) } ∷ [] })
        ≡ err (of_line discount_too_deep))
    × (check_sale cashier corner_shop []
          (record sent { lines = record typed_item { qty = some (pos 50_000) } ∷ [] })
        ≡ err (of_line open_item_refused))
unfolding check_sale ◌*ℤ◌ ◌+ℤ◌
refused_run = (refl, refl, refl)

abbrev kept_sale : Sale × Till × List PhoneLine
kept_sale = get_ok (no_sale, morning, []) (store_offline_sale cashier corner_shop here sent morning)

store_run :
    store_offline_sale cashier corner_shop here sent morning
    ≡ ok (kept_sale.0, kept_sale.1, kept_sale.2)
unfolding store_offline_sale find_uuid record_movement item_or_new find_item save_item ◌+ℤ◌ ◌*ℤ◌ neg
store_run = refl

apart : AreApart 1 hardware taken_in.lines
unfolding check_sale cart_line ◌*ℤ◌ ◌+ℤ◌
apart = ((refl, tt), (tt, tt))

at_price : All IsOpenAtPrice taken_in.lines
unfolding check_sale ◌*ℤ◌ ◌+ℤ◌
at_price = (refl, (refl, tt))

whole : All (IsWhole 1) taken_in.lines
unfolding check_sale ◌*ℤ◌ ◌+ℤ◌
whole = ((refl, refl, refl), ((refl, refl, refl), tt))

not_stored_yet : find_uuid 77 morning.sales ≡ none
unfolding find_uuid
not_stored_yet = refl

store_offline_sale_effect_example :
    let c = checkout_of here taken_in (map (cart_line 1 hardware) taken_in.lines) in
    (kept_sale.0.total ≡ pos taken_in.total)
    × (taken_in.total ≤ paid_of kept_sale.0.payments + slack (length taken_in.lines))
    × (paid_of kept_sale.0.payments ≤ taken_in.total + slack (length taken_in.lines))
    × ((b v : ℕ)
        → quantity_of b v kept_sale.1.stock.items
          ≡ quantity_of b v morning.stock.items -ℤ at_branch b 1 (sold morning.stock v c.lines))
    × ((customer : ℕ)
        → balance customer kept_sale.1.account ≡ balance customer [] +ℤ credit_charged c customer)
    × ((line price qty : ℕ)
        → (mem_key line (named_lines sent.lines) && vouches 1 kept_sale.2 (some line) price qty)
          ≡ false)
store_offline_sale_effect_example =
    store_offline_sale_effect cashier corner_shop here sent taken_in morning kept_sale.1 kept_sale.0
      kept_sale.2 check_run apart at_price (omega arith) whole not_stored_yet store_run
