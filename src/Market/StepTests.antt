-- ===== src/Market/StepTests.antt =====
-- The marketplace over a short run.
use iron_loot.Common.{ℕ, ◌+◌, ◌/◌, ◌≤◌, some, arith}
use iron_loot.Core.Auction.{AuctionStatus}
use iron_loot.Wallet.Effects.{IsSound}
use iron_loot.Market.Samples.{first_bid, lot, db, db-IsSound}
use iron_loot.Market.Commissions.{resolve_rate}
use iron_loot.Market.Scheduler.{close_auction, release_matured_settlements}
use iron_loot.Market.Steps.{Step, Steps, Steps-IsSound}

abbrev to_fixed : ℕ → ℕ
to_fixed n = (n + 5000) / 10000

rate_le : resolve_rate 3 db.commission_configs ≤ 10000
unfolding resolve_rate
rate_le = omega arith

-- User 1's bid wins, and the settlements are swept.
short_run :
    Steps to_fixed db
      (release_matured_settlements
        (close_auction to_fixed 7 (lot AuctionStatus.active) (some first_bid) db).1).1
short_run =
    Steps.step (Step.closes 7 (lot AuctionStatus.active) first_bid (omega arith) rate_le)
      (Steps.step Step.settles Steps.stay)

Steps-IsSound_example :
    IsSound
      (release_matured_settlements
        (close_auction to_fixed 7 (lot AuctionStatus.active) (some first_bid) db).1).1.books
Steps-IsSound_example = Steps-IsSound to_fixed short_run db-IsSound
