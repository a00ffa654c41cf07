-- ===== src/Market/Bids/Checks.antt =====
-- The guards of a bid.
use iron_loot.Common.{ℕ, ◌+◌, ◌≤◌, ◌≡◌, ◌≢◌, true, false, Option, arith}
use iron_loot.Exec.{ok}
use iron_loot.Core.Auction.{AuctionStatus}
use iron_loot.Core.Bid.{validate}
use iron_loot.Market.Rows.{Auction, Bid, Db, get_number}
use iron_loot.Market.Bids.{check_bid, is_open_status, is_bid_of}

abbrev pub min_increment : Db → ℕ
min_increment s = get_number s.settings.auction_min_increment 1000

-- What a bid has to meet, as the code tests it.
pub record MayBid (user amount : ℕ) (a : Auction) (previous : Option Bid) (s : Db) : Type 0 where
  pub open_status : is_open_status a.status ≡ true
  pub not_over : s.books.now ≤ a.ends_at
  pub raises : a.current_price + min_increment s ≤ amount
  pub not_own_bid : is_bid_of user previous ≡ false
  pub not_seller : a.status ≡ AuctionStatus.active → user ≢ a.seller_id

pub check_bid-state :
    (user amount : ℕ) (a : Auction) (previous : Option Bid) (s : Db)
    → (check_bid user amount a previous s).1 ≡ s
unfolding check_bid validate
check_bid-state user amount a previous s = ground arith

pub check_bid-MayBid :
    (user amount : ℕ) (a : Auction) (previous : Option Bid) (s : Db)
    → (check_bid user amount a previous s).0 ≡ ok tt
    → MayBid user amount a previous s
unfolding check_bid validate
check_bid-MayBid user amount a previous s h = ground arith

-- On a published auction the seller passes.
pub check_bid-published :
    (user amount : ℕ) (a : Auction) (previous : Option Bid) (s : Db)
    → a.status ≡ AuctionStatus.published
    → s.books.now ≤ a.ends_at
    → a.current_price + min_increment s ≤ amount
    → is_bid_of user previous ≡ false
    → check_bid user amount a previous s ≡ (ok tt, s)
unfolding check_bid validate
check_bid-published user amount a previous s e h k q = ground arith
