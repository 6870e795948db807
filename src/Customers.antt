-- ===== src/Customers.antt =====
-- Customers' accounts: apps/customers/models.py and apps/customers/services.py.
pub mod Account
pub mod Loyalty
pub mod LoyaltyLaws
mod Tests
