-- ===== src/Market/Bids.antt =====
-- src/api/src/modules/bids/bids.service.ts: placing a bid.
pub mod Checks
pub mod Accepted
pub mod Laws
pub mod Funds
use iron_loot.Common.{
  ℕ, zero, suc, ◌+◌, ◌-◌, ◌*◌, ◌/◌, ◌%◌, ◌≤◌, ◌<◌, ◌≡◌, refl, sym, ap, ◌∙◌, ◌≢◌, ◌⊎◌, inl, inr,
  Bool, true, false, ◌&&◌, ◌||◌, not, Option, none, some, List, [], ◌∷◌, ◌++◌, map, arith, ltb, leb,
  ◌==◌, if◌then◌else◌, ==_iff, Bool-cases, Option-cases, ℤ, pos, negsuc, pos_part, neg_part, sub_ℕ,
  ◌+ℤ◌, ◌-ℤ◌, ◌≤ℤ◌, ◌<ℤ◌, ltb_ℤ, leb_ℤ, min_ℤ, max_ℤ, +ℤ_parts, -ℤ_parts, eq_of_parts, int_laws,
  All, length, select, find_first,
}
use iron_loot.Exec.{
  Error, Result, ok, err, ⊤, Exec, pure, raise, gets, or_raise, settle, transaction, recover, catch,
  raise_if, modify, continue, ◌>>=◌, ◌>>◌, attempt, not_found, bad_request, forbidden, validation,
  insufficient_balance, auction_not_found, auction_not_active, bid_too_low, bid_on_own_auction,
  order_not_found, user_not_found, unique_violation,
}
use iron_loot.Table.{Table, lookup, insert, lookup-insert, lookup-insert_self, lookup-insert_ne}
use iron_loot.Core.Auction.{AuctionStatus, same_status}
use iron_loot.Core.Bid.{validate, Reason, not_active, not_positive, seller_bids, not_above_price}
use iron_loot.Wallet.{hold_funds, release_funds}
use iron_loot.Market.Rows.{Auction, Bid, Db, on_books, now, auction_update, top_bid, get_number}

-- What `placeBid` throws for the verdict of the domain rules; it goes on where the auction is not
-- active, since it has tested the status itself.
abbrev pub enforce : Option Reason → Exec Db ⊤
enforce none = pure tt
enforce (some not_active) = pure tt
enforce (some seller_bids) = raise bid_on_own_auction
enforce (some not_positive) = raise bid_too_low
enforce (some not_above_price) = raise bid_too_low

abbrev pub is_bid_of : ℕ → Option Bid → Bool
is_bid_of user none = false
is_bid_of user (some b) = b.bidder_id == user

abbrev pub is_open_status : AuctionStatus → Bool
is_open_status s = same_status s AuctionStatus.active || same_status s AuctionStatus.published

-- A bid in the last stretch of an auction prolongs it.
abbrev pub extended : ℕ → ℕ → ℕ → ℕ
extended ends_at at extension_ms =
    if ltb (ends_at - at) extension_ms then ends_at + extension_ms else ends_at

-- The outbid user's funds; an exception is logged and forgotten.
unfoldable pub release_previous : ℕ → Option Bid → Exec Db ⊤
release_previous auction_id none = pure tt
release_previous auction_id (some b) =
    attempt (on_books (release_funds b.bidder_id (pos b.amount) auction_id))

-- The guards of `placeBid`, in the order of the code.
unfoldable pub check_bid : ℕ → ℕ → Auction → Option Bid → Exec Db ⊤
check_bid user amount a previous = do
  at ← now
  raise_if (not (is_open_status a.status)) auction_not_active
  raise_if (ltb a.ends_at at) auction_not_active
  enforce (
      validate (record {
        auction_status = a.status;
        current_price = a.current_price;
        bidder_id = user;
        seller_id = a.seller_id;
        bid_amount = amount;
      }))
  raise_if (is_bid_of user previous) bid_on_own_auction
  min_increment ← gets (λ s. get_number s.settings.auction_min_increment 1000)
  raise_if (ltb amount (a.current_price + min_increment)) bid_too_low

-- The transaction that writes the bid and the auction.
unfoldable pub write_bid : ℕ → ℕ → ℕ → Auction → Exec Db Bid
write_bid user auction_id amount a = do
  at ← now
  window ← gets (λ s. get_number s.settings.soft_close_window_sec 120)
  let b : Bid = record {
    auction_id = auction_id;
    bidder_id = user;
    amount = amount;
    created_at = at;
  }
  transaction do
    modify (λ s. record s { bids = b ∷ s.bids })
    auction_update auction_id (record a {
      current_price = amount;
      status = AuctionStatus.active;
      ends_at = extended a.ends_at at (window * 1000);
    })
    pure b

-- `placeBid` once the auction is read, with the highest bid that was read with it.
unfoldable pub bid_on : ℕ → ℕ → ℕ → Auction → Option Bid → Exec Db Bid
bid_on user auction_id amount a previous = do
  check_bid user amount a previous
  on_books (hold_funds user (pos amount) auction_id)
  b ← write_bid user auction_id amount a
  release_previous auction_id previous
  pure b

-- The `try` block of `placeBid`.
unfoldable pub bid_body : ℕ → ℕ → ℕ → Exec Db Bid
bid_body user auction_id amount = do
  a ← or_raise (← gets (λ s. lookup auction_id s.auctions)) auction_not_found
  previous ← gets (λ s. top_bid auction_id s.bids)
  bid_on user auction_id amount a previous

-- Its `catch` block: the funds are released, and the exception goes on.
unfoldable pub compensate : ℕ → ℕ → ℕ → Error → Exec Db Bid
compensate user auction_id amount e = do
  attempt (on_books (release_funds user (pos amount) auction_id))
  raise e

unfoldable pub place_bid : ℕ → ℕ → ℕ → Exec Db Bid
place_bid user auction_id amount =
    catch (bid_body user auction_id amount) (compensate user auction_id amount)
