-- ===== src/Market.antt =====
-- The marketplace: auctions, bids, orders and what follows from a sale.
pub mod Rows
pub mod Bids
pub mod Commissions
pub mod Orders
pub mod Shipments
pub mod Disputes
pub mod Refunds
pub mod Withdrawals
pub mod Auctions
pub mod Scheduler
pub mod Resolutions
pub mod Moderation
pub mod Soundness
pub mod Steps
mod Tests
pub mod Samples
mod SaleTests
mod StepTests
mod DisputeTests
mod AccountTests
