-- ===== src/Tenancy.antt =====
-- What the platform bills to a shop: apps/tenancy/billing.py and apps/tenancy/tasks.py over the
-- tables of apps/tenancy/models.py.
pub mod State
pub mod Billing
pub mod Payments
pub mod Renewal
pub mod Balance
pub mod Steps
pub mod Reversals
pub mod Ledger
pub mod ExtensionLaws
pub mod NightLaws
pub mod Periods
pub mod PeriodLaws
pub mod UndoLaws
mod Tests
