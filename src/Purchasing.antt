-- ===== src/Purchasing.antt =====
-- Buying: apps/purchasing/services.py over the tables of apps/purchasing/models.py.
pub mod Orders
pub mod Receipts
pub mod ReceiptLaws
pub mod OrderLaws
pub mod PostedLaws
pub mod PostingLaws
pub mod OwedLaws
pub mod Bills
pub mod Posting
pub mod AdvanceLaws
pub mod SettleLaws
pub mod SettlingLaws
pub mod ApplyLaws
pub mod AppliedLaws
mod Tests
