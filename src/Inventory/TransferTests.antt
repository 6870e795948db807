-- ===== src/Inventory/TransferTests.antt =====
-- Runs of transfers and counts, and their theorems at concrete shops.
use retail_system.Prelude.{
  ℕ, ◌≡◌, refl, Option, none, some, List, [], ◌∷◌, arith, ◌==◌, if◌then◌else◌, ℤ, pos, negsuc, ◌+ℤ◌,
  ◌-ℤ◌, neg, length, err, ok, get_ok,
}
use retail_system.Inventory.CountLaws.{line_change, counted_change, differing, apply_count_effect}
use retail_system.Inventory.Counts.{CountStatus, StockCount, apply_count}
use retail_system.Inventory.Ledger.{IsConsistent}
use retail_system.Inventory.Movement.{record_movement}
use retail_system.Inventory.Rebuild.{update_row, rebuild_stock_items}
use retail_system.Inventory.Refinement.{run_refines}
use retail_system.Inventory.Sample.{purchase_request, stocked, stocked-IsConsistent}
use retail_system.Inventory.Services.{
  Service, movement, sending, counting, rebuilding, run, accepted, replay, holdings,
}
use retail_system.Inventory.State.{
  Stock, not_sent, already_applied, find_item, item_or_new, save_item, quantity_of, ledger_total,
}
use retail_system.Inventory.TransferLaws.{transfer_effect, transfer_conserves}
use retail_system.Inventory.Transfers.{TransferStatus, Transfer, send_transfer, receive_transfer}
use retail_system.Inventory.Transit.{line_out, sent_of, received_of, at_branch}
use retail_system.Money.{half_even}

abbrev lorry : Transfer
lorry = record {
  pk = 8;
  from_branch = 1;
  to_branch = 2;
  status = TransferStatus.draft;
  lines =
      record {
        pk = 1;
        variant = 5;
        batch = none;
        qty_sent = pos 3000;
        qty_received = none;
        unit_cost = none;
      }
      ∷ [];
  sent_at = none;
  received_at = none;
}

abbrev sent_lorry : Transfer × Stock
sent_lorry = get_ok (lorry, stocked) (send_transfer 70 lorry stocked)

send_run : send_transfer 70 lorry stocked ≡ ok (sent_lorry.0, sent_lorry.1)
unfolding send_transfer record_movement item_or_new find_item save_item half_even ◌+ℤ◌ neg
send_run = refl

-- One unit is missing on arrival.
abbrev counted : ℕ → Option ℤ
counted pk = if pk == 1 then some (pos 2000) else none

abbrev short_lorry : Transfer × Stock
short_lorry = get_ok sent_lorry (receive_transfer 90 sent_lorry.0 counted sent_lorry.1)

receive_run :
    receive_transfer 90 sent_lorry.0 counted sent_lorry.1 ≡ ok (short_lorry.0, short_lorry.1)
unfolding send_transfer receive_transfer record_movement item_or_new find_item save_item half_even
    ◌+ℤ◌ neg
receive_run = refl

transfer_effect_example :
    ((b v : ℕ)
      → quantity_of b v short_lorry.1.items
        ≡ quantity_of b v stocked.items
          -ℤ at_branch b 1 (sent_of stocked v lorry.lines)
          +ℤ at_branch b 2 (received_of stocked v counted lorry.lines))
    × IsConsistent short_lorry.1
    × (receive_transfer 90 short_lorry.0 counted short_lorry.1 ≡ err not_sent)
transfer_effect_example =
    transfer_effect 70 90 lorry sent_lorry.0 short_lorry.0 counted stocked sent_lorry.1
      short_lorry.1 stocked-IsConsistent send_run receive_run

abbrev whole_lorry : Transfer × Stock
whole_lorry = get_ok sent_lorry (receive_transfer 90 sent_lorry.0 (λ _. none) sent_lorry.1)

receive_whole_run :
    receive_transfer 90 sent_lorry.0 (λ _. none) sent_lorry.1 ≡ ok (whole_lorry.0, whole_lorry.1)
unfolding send_transfer receive_transfer record_movement item_or_new find_item save_item half_even
    ◌+ℤ◌ neg
receive_whole_run = refl

transfer_conserves_example :
    quantity_of 1 5 whole_lorry.1.items +ℤ quantity_of 2 5 whole_lorry.1.items
    ≡ quantity_of 1 5 stocked.items +ℤ quantity_of 2 5 stocked.items
transfer_conserves_example =
    transfer_conserves 70 90 lorry sent_lorry.0 whole_lorry.0 stocked sent_lorry.1 whole_lorry.1 5
      (omega arith) (omega arith) send_run receive_whole_run

abbrev stock_take : StockCount
stock_take = record {
  pk = 4;
  branch = 1;
  status = CountStatus.counting;
  lines =
      record { variant = 5; system_qty = pos 12_000; counted_qty = some (pos 11_500) }
      ∷ record { variant = 6; system_qty = pos 0; counted_qty = none }
      ∷ [];
  applied_at = none;
}

abbrev taken_stock : ℕ × StockCount × Stock
taken_stock = get_ok (0, stock_take, stocked) (apply_count 50 stock_take stocked)

count_run : apply_count 50 stock_take stocked ≡ ok (taken_stock.0, taken_stock.1, taken_stock.2)
unfolding apply_count record_movement item_or_new find_item save_item ◌+ℤ◌ ◌-ℤ◌
count_run = refl

apply_count_effect_example :
    (taken_stock.0 ≡ differing stock_take.lines)
    × ((b v : ℕ)
        → quantity_of b v taken_stock.2.items
          ≡ quantity_of b v stocked.items
            +ℤ at_branch b 1 (counted_change stocked v stock_take.lines))
    × IsConsistent taken_stock.2
    × (apply_count 51 taken_stock.1 taken_stock.2 ≡ err already_applied)
apply_count_effect_example =
    apply_count_effect 50 51 taken_stock.0 stock_take taken_stock.1 stocked taken_stock.2
      stocked-IsConsistent count_run

-- More is sold than there is, which is refused; the rest of the day goes on.
abbrev day : List Service
day =
    movement (record purchase_request { qty_delta = negsuc 12_999; unit_cost = none })
    ∷ sending 70 lorry
    ∷ counting 80 stock_take
    ∷ rebuilding 1
    ∷ []

run_refines_example :
    IsConsistent (run day stocked)
    × (holdings (run day stocked)
        ≡ replay stocked.tracked (accepted day stocked) (holdings stocked))
run_refines_example = run_refines day stocked stocked-IsConsistent

whole_day :
    (length (accepted day stocked) ≡ 3)
    × (holdings (run day stocked) 1 5 ≡ pos 8500)
    × (replay stocked.tracked (accepted day stocked) (holdings stocked) 1 5 ≡ pos 8500)
unfolding accepted run replay record_movement send_transfer apply_count rebuild_stock_items
    item_or_new find_item save_item half_even quantity_of sent_of counted_change update_row
    ledger_total line_out line_change ◌+ℤ◌ ◌-ℤ◌ neg
whole_day = (refl, refl, refl)
