-- ===== src/Members.antt =====
-- src/api/src/modules: users, kyc, ratings and watchlist.
pub mod Rows
pub mod Kyc
pub mod Sellers
pub mod Settings
pub mod Ratings
pub mod Watchlist
mod Tests
