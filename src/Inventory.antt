-- ===== src/Inventory.antt =====
-- Stock: apps/inventory/services.py over the tables of apps/inventory/models.py.
pub mod State
pub mod Movement
pub mod Ledger
pub mod Costs
pub mod Adjustment
pub mod Transfers
pub mod Transit
pub mod TransferLaws
pub mod Counts
pub mod CountLaws
pub mod Rebuild
pub mod RebuildLaws
pub mod Batches
pub mod Services
pub mod Refinement
pub mod Sample
mod Tests
mod TransferTests
