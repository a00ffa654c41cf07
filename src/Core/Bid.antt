-- ===== src/Core/Bid.antt =====
-- src/packages/core: the rules that a bid must meet (bid-validation.ts). Amounts are in cents.
use iron_loot.Common.{ℕ, not, Option, none, some, ◌==◌, leb, if◌then◌else◌}
use iron_loot.Core.Auction.{AuctionStatus, same_status}

pub record BidValidationContext : Type 0 where
  pub auction_status : AuctionStatus
  pub current_price : ℕ
  pub bidder_id : ℕ
  pub seller_id : ℕ
  pub bid_amount : ℕ

pub data Reason : Type 0 where
  not_active not_positive seller_bids not_above_price : Reason

-- `none` is `valid: true`; the rules are tried in this order.
unfoldable pub validate : BidValidationContext → Option Reason
validate ctx =
    if not (same_status ctx.auction_status AuctionStatus.active)
    then some not_active
    else if leb ctx.bid_amount 0
    then some not_positive
    else if ctx.bidder_id == ctx.seller_id
    then some seller_bids
    else if leb ctx.bid_amount ctx.current_price
    then some not_above_price
    else none
