-- ===== src/Core.antt =====
-- The domain rules of src/packages/core, which the API's services call.
pub mod Auction
pub mod Order
pub mod Dispute
pub mod Bid
pub mod WalletCalculation
pub mod Lifecycles
mod Tests
