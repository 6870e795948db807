-- ===== src/Till.antt =====
-- The till: apps/pos/services.py over the tables of apps/pos/models.py.
pub mod Amounts
pub mod AmountLaws
pub mod State
pub mod Checkout
pub mod Sold
pub mod CheckoutLaws
pub mod Void
pub mod Restock
pub mod Reversal
pub mod VoidLaws
pub mod Refund
pub mod Returns
pub mod Tender
pub mod TenderLaws
pub mod Validation
pub mod Acceptance
pub mod Baskets
pub mod Offline
pub mod AcceptanceLaws
pub mod ReviewLaws
mod Scale
pub mod SaleSteps
pub mod SaleLaws
pub mod Filling
pub mod OfflineLaws
pub mod Shifts
pub mod ShiftLaws
pub mod RefundLaws
pub mod LineBounds
pub mod LineRefunds
pub mod ReturnLaws
pub mod FreshSales
pub mod Sample
mod Tests
mod ReturnTests
mod ShiftTests
mod TenderTests
pub mod Counter
mod OfflineTests
mod OfflineRuns
