-- ===== src/Market/Orders.antt =====
-- src/api/src/modules/orders/orders.service.ts.
pub mod Laws
use iron_loot.Common.{
  ℕ, zero, suc, ◌+◌, ◌-◌, ◌*◌, ◌/◌, ◌%◌, ◌≤◌, ◌<◌, ◌≡◌, refl, sym, ap, ◌∙◌, ◌≢◌, ◌⊎◌, inl, inr,
  Bool, true, false, ◌&&◌, ◌||◌, not, Option, none, some, List, [], ◌∷◌, ◌++◌, map, arith, ltb, leb,
  ◌==◌, if◌then◌else◌, ==_iff, Bool-cases, Option-cases, ℤ, pos, negsuc, pos_part, neg_part, sub_ℕ,
  ◌+ℤ◌, ◌-ℤ◌, ◌≤ℤ◌, ◌<ℤ◌, ltb_ℤ, leb_ℤ, min_ℤ, max_ℤ, +ℤ_parts, -ℤ_parts, eq_of_parts, int_laws,
  All, length, select, find_first,
}
use iron_loot.Exec.{
  Error, Result, ok, err, ⊤, Exec, pure, raise, gets, or_raise, settle, transaction, recover, catch,
  raise_if, modify, continue, ◌>>=◌, ◌>>◌, attempt, not_found, bad_request, forbidden, validation,
  insufficient_balance, auction_not_found, auction_not_active, bid_too_low, bid_on_own_auction,
  order_not_found, user_not_found, unique_violation, record_missing,
}
use iron_loot.Table.{Table, lookup, insert, lookup-insert, lookup-insert_self, lookup-insert_ne}
use iron_loot.Core.Order.{OrderStatus, can_transition}
use iron_loot.Market.Rows.{Auction, Bid, Order, Db, now, fresh_id, order_update, top_bid}

-- `auction.order`, with its identifier; an auction has at most one.
abbrev pub order_of_auction : ℕ → Table Order → Option (ℕ × Order)
order_of_auction k t = find_first (λ row. row.1.auction_id == k) t

-- The row that `tx.order.create` writes for a bid.
abbrev pub order_from : ℕ → Auction → Bid → OrderStatus → Option ℤ → ℕ → Order
order_from auction_id a b status seller_net at = record {
  auction_id = auction_id;
  buyer_id = b.bidder_id;
  seller_id = a.seller_id;
  total_amount = b.amount;
  status = status;
  seller_net = seller_net;
  seller_settled_at = none;
  created_at = at;
  updated_at = at;
}

-- A new order of a bid; `auctionId` is unique.
unfoldable pub order_create : ℕ → Auction → Bid → OrderStatus → Option ℤ → Exec Db ℕ
order_create auction_id a b status seller_net = do
  existing ← gets (λ s. order_of_auction auction_id s.orders)
  raise_if (elim existing [ none ↦ false | some row ↦ true ]) unique_violation
  id ← fresh_id
  at ← now
  modify (λ s. record s {
    orders = insert id (order_from auction_id a b status seller_net at) s.orders;
  })
  pure id

-- The winner's order: the one that exists, or a new one that awaits its payment.
abbrev order_for_winner : ℕ → ℕ → Auction → Option Bid → Option (ℕ × Order) → Exec Db ℕ
order_for_winner user auction_id a winning (some (id, o)) = do
  raise_if (not (o.buyer_id == user)) forbidden
  pure id
order_for_winner user auction_id a none none = raise validation
order_for_winner user auction_id a (some b) none = do
  raise_if (not (b.bidder_id == user)) forbidden
  order_create auction_id a b OrderStatus.pending_payment none

unfoldable pub create_from_auction : ℕ → ℕ → Exec Db ℕ
create_from_auction user auction_id = transaction do
  a ← or_raise (← gets (λ s. lookup auction_id s.auctions)) auction_not_found
  winning ← gets (λ s. top_bid auction_id s.bids)
  existing ← gets (λ s. order_of_auction auction_id s.orders)
  order_for_winner user auction_id a winning existing

unfoldable pub find_one : ℕ → ℕ → Exec Db Order
find_one user order_id = do
  o ← or_raise (← gets (λ s. lookup order_id s.orders)) order_not_found
  raise_if (not (o.buyer_id == user) && not (o.seller_id == user)) forbidden
  pure o

unfoldable pub update_status : ℕ → OrderStatus → Exec Db ⊤
update_status order_id status = do
  o ← or_raise (← gets (λ s. lookup order_id s.orders)) order_not_found
  raise_if (not (can_transition o.status status)) validation
  order_update order_id (record o { status = status })
