-- ===== src/Market/AccountTests.antt =====
-- The theorems on withdrawals, commissions, orders and auctions at concrete rows.
use iron_loot.Common.{◌≡◌, refl, ◌⊎◌, some, [], ◌∷◌, pos, ◌+ℤ◌, ◌-ℤ◌}
use iron_loot.Exec.{Error, ok, err}
use iron_loot.Table.{lookup}
use iron_loot.Market.Moderation.Laws.{Moderation, Moderated, moderate, moderate_cases}
use iron_loot.Core.Auction.{AuctionStatus}
use iron_loot.Wallet.Rows.{asegurar_monedero}
use iron_loot.Wallet.Payouts.{moved_by}
use iron_loot.Wallet.{get_balance, get_wallet, withdraw}
use iron_loot.Market.Samples.{rival, lot, db, account_db}
use iron_loot.Market.Rows.{Db}
use iron_loot.Market.Withdrawals.{request, reject, sum_withdrawals}
use iron_loot.Market.Withdrawals.Laws
use iron_loot.Market.Withdrawals.Laws.{request_cases, final_refused, request-reject, requested_by}

request_cases_example : Laws.Accepted 2 4000 5 account_db ⊎ Laws.Refused 2 4000 5 account_db
request_cases_example = request_cases 2 4000 5 account_db

request_ok : (request 2 4000 5 account_db).0 ≡ ok 100
unfolding request sum_withdrawals get_balance get_wallet asegurar_monedero withdraw ◌+ℤ◌
request_ok = refl

request-reject_example :
    let s₁ = (request 2 4000 5 account_db).1 in
    (lookup 2 s₁.books.wallets ≡ some (moved_by rival (pos 10000 -ℤ pos 4000)))
    × ((reject 100 s₁).0 ≡ ok tt)
    × (lookup 2 (reject 100 s₁).1.books.wallets ≡ some rival)
request-reject_example = request-reject 2 4000 5 100 rival account_db request_ok refl

-- The administration cancels an auction that runs, with a bid.
moderate_cases_example :
    Moderated Moderation.cancel 7 db
    ⊎ ((e : Error) × (moderate Moderation.cancel 7 db ≡ (err e, db)))
moderate_cases_example = moderate_cases Moderation.cancel 7 db

abbrev over_db : Db
over_db = record db { auctions = (7, lot AuctionStatus.closed) ∷ [] }
