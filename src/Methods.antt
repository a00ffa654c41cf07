-- ===== src/Methods.antt =====
-- Where withdrawals are paid to: accounts, and how they are verified.
pub mod Clabe
pub mod Rows
pub mod Accounts
pub mod Verification
pub mod Laws
pub mod Guesses
mod Tests
