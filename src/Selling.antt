-- ===== src/Selling.antt =====
-- Paperwork: quotations, invoices and delivery notes of apps/selling.
pub mod Documents
pub mod DocumentLaws
pub mod DocumentTax
pub mod Discounts
pub mod DiscountLaws
pub mod State
pub mod Quotations
pub mod QuotationLaws
pub mod Deliveries
pub mod Invoices
pub mod Cancelling
pub mod PaymentEntries
pub mod PaymentLaws
pub mod DeliveryAmounts
pub mod DeliveryLaws
pub mod IssueLaws
pub mod CancelLaws
pub mod VoidInvoiceLaws
mod Sample
mod DocumentTests
mod InvoiceTests
