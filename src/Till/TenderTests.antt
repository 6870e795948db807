-- ===== src/Till/TenderTests.antt =====
-- Payments of a sale of 29.09, paid by phone and with a note.
use retail_system.Prelude.{◌≡◌, refl, List, [], ◌∷◌, pos, err, ok, get_ok}
use retail_system.Till.State.{PaymentMethod, SalePayment}
use retail_system.Till.Tender.{RawPayment, underpaid, paid_of, check_payments}

abbrev handed_over : List RawPayment
handed_over =
    record { method = PaymentMethod.mpesa; amount = pos 1000; change_given = pos 0 }
    ∷ record { method = PaymentMethod.cash; amount = pos 5000; change_given = pos 0 }
    ∷ record { method = PaymentMethod.cash; amount = pos 0; change_given = pos 0 }
    ∷ []

abbrev kept_money : List SalePayment
kept_money = get_ok [] (check_payments 2 2909 handed_over)

tender_run :
    (check_payments 2 2909 handed_over ≡ ok kept_money)
    × (paid_of kept_money ≡ 2909)
    × (check_payments 1 2909 [] ≡ err underpaid)
unfolding check_payments paid_of
tender_run = (refl, refl, refl)
