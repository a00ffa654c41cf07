-- ===== src/Payments.antt =====
-- src/api/src/modules/payments: deposits through the payment providers.
pub mod Rows
pub mod Cycle
pub mod Evaluation
pub mod Checks
pub mod Credit
pub mod Registry
pub mod Entries
pub mod Decisions
pub mod Crediting
pub mod Reserving
pub mod Deposited
pub mod Answers
pub mod Promises
pub mod Refinements
pub mod Runs
pub mod Laws
pub mod Anomalies
pub mod Schedule
pub mod Providers
mod Tests
