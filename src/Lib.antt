-- ===== src/Lib.antt =====
-- IronLoot: an auction marketplace (a NestJS API over PostgreSQL), of which this library models the part
-- that handles money and who may: the wallets with their ledger, the life of an auction from its draft
-- to the settlement of its sale, deposits through payment providers, accounts and their sessions, and
-- the domain rules of packages/core that the services call.
--
-- Bids hold funds of a wallet and release those of the bid that they beat; the scheduler closes an
-- auction, captures the winner's funds, credits the seller's pending balance and books the commission;
-- shipments, disputes and refunds move the order; the scheduler releases the seller's net when it has
-- matured; withdrawals take money off the platform, to accounts that were verified. Deposits bring money
-- in: a request opens a cycle, the provider's notification or the reconciliation closes it. All of it
-- goes through the wallet service. Users sign in with sessions, and sell once their documents are
-- approved.
--
-- Which file models what (paths from the root of the repository):
--   Core/Auction, Order, Dispute, Bid, WalletCalculation: src/packages/core/src/domain, the state
--     machines (`canTransition`), `BidValidation.validate` and `WalletCalculation`; Core/Lifecycles has
--     the theorem on an order's life as a graph.
--   Wallet/Rows, Wallet, Wallet/Sales: src/api/src/modules/wallet/wallet.service.ts. Rows has the rows
--     and `asegurarMonedero`, Wallet has `getBalance`, `deposit`, `withdraw`, `holdFunds`,
--     `releaseFunds`, `refundWithdrawal`, and Sales has `captureHeldFunds`, `releaseSettlement`,
--     `reversarVenta`. The other files under Wallet/ have the proofs: Posting (what the ledger owes to
--     the wallets), Effects (the shared lemmas), CallEffects, SaleEffects, ReversalEffects, Cases,
--     Payouts (single methods), Fees (rounding), Runs (sequences of calls).
--   Market/Rows: the models of src/api/prisma/schema.prisma that the services below read and write.
--   Market/Bids, Orders, Shipments, Disputes, Refunds, Commissions, Auctions, Scheduler: the services of
--     those names under src/api/src/modules (bids/bids.service.ts and so on; Scheduler is
--     scheduler/auction-scheduler.service.ts). Market/Withdrawals is wallet/withdrawals.service.ts and
--     `getDailyWithdrawals`, Market/Resolutions the end of a dispute and Market/Moderation the
--     moderation of auctions in admin/admin.service.ts. Each has its proofs in modules below it.
--     Market/Soundness and Market/Steps: the calls that move money, one after another. Market/Samples
--     and the modules named Tests: runs at concrete rows.
--   Payments/Rows, Cycle, Evaluation, Checks: src/api/src/modules/payments/payment-cycle.service.ts with its
--     rows (Checks: which cycles are due, and when they end); Payments/Credit: `applyProviderResult` and what
--     it calls in payments.service.ts; Payments/Registry: payment-provider.registry.ts; Payments/Entries:
--     `initiatePayment`, `handleWebhook` and payment-reconciliation.service.ts; Payments/Providers: what
--     the files under payments/providers make of a notification and of a search. The proofs: Decisions,
--     Crediting, Reserving, Deposited, Answers (the cases of each call), Promises (the specification of a
--     deposit and its view of the database), Refinements, Runs (every entry point keeps it), Laws,
--     Anomalies, Schedule.
--   Auth/Rows, Sessions, Accounts: src/api/src/modules/auth/auth.service.ts and two-factor-auth.service.ts
--     (Sessions: `login`, `refreshToken`, `logout`; Accounts: the rest). bcrypt and otplib are the record
--     Secrets. The proofs: Login, Rotation, Passwords.
--   Methods/Clabe: src/api/src/modules/wallet/clabe.util.ts; Methods/Accounts: `addBankAccount` and
--     `addPaypalAccount` of payments.service.ts; Methods/Verification: wallet/account-verification.service.ts
--     with its rows in Methods/Rows; Methods/Laws and Guesses have the proofs.
--   Members/Rows, Kyc, Sellers, Settings, Ratings, Watchlist: kyc/kyc.service.ts, users/users.service.ts,
--     ratings/ratings.service.ts and watchlist/watchlist.service.ts, each with its proofs below it.
--   Upload: upload/file-signature.ts. Cleanup: system-cleanup/system-cleanup.service.ts. Config:
--     system-config/system-config.service.ts. Cfdi: cfdi/cfdi.service.ts and cfdi-pac.registry.ts.
--   Lock: src/api/src/common/redis/distributed-lock.service.ts, over a Redis server that is a parameter
--     (the record Redis: its commands with their documented laws); Lock/Exclusion has the lock under
--     calls in any order, Lock/Cron the scheduler's `handleCron`.
--   Exec: a service method as a function from the database to a result and the database: what was
--     written before an exception stays, except in a `transaction`; `catch` and `attempt` are
--     `try`/`catch`. Table: a table as an association list. Common: what all files share.
--
-- How the code is read:
--   Amounts are whole cents, signed where a column may be negative, and natural numbers where they come
--   from a price; rates are hundredths of a percent; times are milliseconds; identifiers are natural
--   numbers, drawn from a counter, and a wallet is named by its user. A `Decimal(12, 2)` column rounds to
--   cents, a half away from zero; amounts of more than two decimals and the overflow of the column are
--   not modelled. `Number.toFixed(2)` is an argument of the scheduler. A slug, of which nanoid draws a
--   part, is an argument. Texts, notifications, events, logs, the audit trail and the links of an event
--   to its wallet are left out, since no modelled decision reads them.
--   Each method runs alone: row locks (`FOR UPDATE`) change no row, and what they keep apart is not
--   modelled, except that a rating is checked and written apart. A wallet that
--   `asegurarMonedero` makes is written on a connection of its own and stays when the caller's
--   transaction is rolled back. What the environment and the table of settings hold is a record of
--   the database; the hours of `PAYMENT_EXPIRATION_HOURS` are whole.
--   No definition needs fuel: every loop is over the rows of a table or a list.
--
--   A deposit's reference, `DEP-<user>-<timestamp>`, is an even number that holds both, and every other
--   text is an odd one. The database fails an attempt to credit a wallet where the list of outages says
--   so, a query of the table of settings where its own list does, and those of a purge where their
--   state does; no other query fails. A
--   secure token is the next number of a counter, as is an identifier.
--
-- Not modelled: a provider's calls over the network, the guards and the tokens' signatures, the
-- rest of the administration, notifications and the audit trail, the cache in Redis, the storage of
-- files, the listings that only read, the three front ends, the scripts and the deployment. These are
-- records, output, pages and configuration around the money.
pub mod Common
pub mod Exec
pub mod Table
pub mod Core
pub mod Wallet
pub mod Market
pub mod Lock
pub mod Payments
pub mod Auth
pub mod Members
pub mod Methods
pub mod Upload
pub mod Cleanup
pub mod Config
pub mod Cfdi
