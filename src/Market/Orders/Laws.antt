-- ===== src/Market/Orders/Laws.antt =====
-- What the orders' methods guarantee.
use iron_loot.Common.{ℕ, ◌≡◌, ◌⊎◌, inl, inr, none, some, arith, Option-cases}
use iron_loot.Exec.{ok}
use iron_loot.Table.{lookup, insert}
use iron_loot.Core.Order.{OrderStatus}
use iron_loot.Market.Rows.{Auction, Bid, Order, Db, top_bid}
use iron_loot.Market.Orders.{order_of_auction, order_create, create_from_auction, order_from}

-- A user gets an order for an auction only if it is the auction's order and the user's, and then
-- nothing is written, or if there is none and the highest bid is the user's, and then a new one
-- awaits payment.
pub create_from_auction-ok :
    (user k id : ℕ) (s : Db)
    → (create_from_auction user k s).0 ≡ ok id
    → let s' = (create_from_auction user k s).1 in
      ((o : Order) × (order_of_auction k s.orders ≡ some (id, o)) × (o.buyer_id ≡ user) × (s' ≡ s))
      ⊎ ((a : Auction) × (b : Bid) × (lookup k s.auctions ≡ some a)
          × (top_bid k s.bids ≡ some b)
          × (b.bidder_id ≡ user)
          × (order_of_auction k s.orders ≡ none)
          × (s'.orders
              ≡ insert id (order_from k a b OrderStatus.pending_payment none s.books.now) s.orders))
unfolding create_from_auction order_create
create_from_auction-ok user k id s h = elim (Option-cases (lookup k s.auctions)) [
  | inl e ↦ absurd (ground arith)
  | inr (a, e) ↦ elim (Option-cases (order_of_auction k s.orders)) [
    | inr ((j, o), eo) ↦ inl (o, ground arith, ground arith, ground arith)
    | inl eo ↦ elim (Option-cases (top_bid k s.bids)) [
      | inl eb ↦ absurd (ground arith)
      | inr (b, eb) ↦ inr (a, b, e, eb, ground arith, eo, ground arith)
    ]
  ]
]
