-- ===== src/Market/Scheduler.antt =====
-- src/api/src/modules/scheduler/auction-scheduler.service.ts: starting and closing auctions, and releasing
-- what sellers wait for. `toFixed(2)` of a double is an argument: it takes a value in ten-thousandths
-- of a cent to cents.
pub mod Settlements
pub mod Losers
pub mod Closing
pub mod Sweep
use iron_loot.Common.{
  ℕ, zero, suc, ◌+◌, ◌-◌, ◌*◌, ◌/◌, ◌%◌, ◌≤◌, ◌<◌, ◌≡◌, refl, sym, ap, ◌∙◌, ◌≢◌, ◌⊎◌, inl, inr,
  Bool, true, false, ◌&&◌, ◌||◌, not, Option, none, some, List, [], ◌∷◌, ◌++◌, map, arith, ltb, leb,
  ◌==◌, if◌then◌else◌, ==_iff, Bool-cases, Option-cases, ℤ, pos, negsuc, pos_part, neg_part, sub_ℕ,
  ◌+ℤ◌, ◌-ℤ◌, ◌≤ℤ◌, ◌<ℤ◌, ltb_ℤ, leb_ℤ, min_ℤ, max_ℤ, +ℤ_parts, -ℤ_parts, eq_of_parts, int_laws,
  All, length, select, find_first,
}
use iron_loot.Exec.{
  Error, Result, ok, err, ⊤, Exec, pure, raise, gets, or_raise, settle, transaction, recover, catch,
  raise_if, modify, continue, ◌>>=◌, ◌>>◌, attempt, not_found, bad_request, forbidden, validation,
  insufficient_balance, auction_not_found, auction_not_active, bid_too_low, bid_on_own_auction,
  order_not_found, user_not_found, unique_violation, record_missing,
}
use iron_loot.Table.{Table, lookup, insert, lookup-insert, lookup-insert_self, lookup-insert_ne}
use iron_loot.Core.Auction.{AuctionStatus, same_status}
use iron_loot.Core.Order.{OrderStatus}
use iron_loot.Core.Dispute.{DisputeStatus}
use iron_loot.Wallet.Rows.{Books, asegurar_monedero}
use iron_loot.Wallet.{release_funds}
use iron_loot.Wallet.Sales.{capture_run, release_settlement_run}
use iron_loot.Market.Rows.{
  Auction, Bid, Order, Shipment, Dispute, Db, on_books, now, order_update, top_bid,
}
use iron_loot.Market.Commissions.{resolve_rate, record_for_order}
use iron_loot.Market.Orders.{order_create, order_of_auction}
use iron_loot.Market.Shipments.{shipment_of_order}
use iron_loot.Market.Disputes.{dispute_of_order}

abbrev pub started : ℕ → Auction → Auction
started at a =
    if same_status a.status AuctionStatus.published && leb a.starts_at at
    then record a { status = AuctionStatus.active }
    else a

-- `updateMany` over the published auctions whose start has come.
unfoldable pub start_scheduled_auctions : Exec Db ⊤
start_scheduled_auctions =
    modify (λ s. record s { auctions = map (λ row. (row.0, started s.books.now row.1)) s.auctions })

-- `tx.auction.update({ data: { status } })`
abbrev pub set_status : ℕ → AuctionStatus → Exec Db ⊤
set_status k status = do
  a ← or_raise (← gets (λ s. lookup k s.auctions)) record_missing
  modify (λ s. record s { auctions = insert k (record a { status = status }) s.auctions })

-- A losing bidder's highest bid so far.
abbrev pub raise_max : ℕ → ℕ → Table ℕ → Table ℕ
raise_max user amount t = elim (lookup user t) [
  | none ↦ insert user amount t
  | some m ↦ insert user (if ltb m amount then amount else m) t
]

-- `groupBy` of the bids by bidder, the winner's left out, with the highest amount of each.
unfoldable pub losers : ℕ → ℕ → List Bid → Table ℕ
losers k winner [] = []
losers k winner (b ∷ bs) =
    let rest = losers k winner bs in
    if (b.auction_id == k) && not (b.bidder_id == winner)
    then raise_max b.bidder_id b.amount rest
    else rest

-- The losers' funds; an exception is logged and the loop goes on.
unfoldable pub release_losers : ℕ → Table ℕ → Exec Db ⊤
release_losers k [] = pure tt
release_losers k ((user, amount) ∷ t) = do
  attempt (on_books (release_funds user (pos amount) k))
  release_losers k t

module _ (to_fixed : ℕ → ℕ) where
  -- `Number((gross - gross * feePercent / 100).toFixed(2))`, for a fee of at most 100 %.
  unfoldable pub seller_net : ℕ → ℕ → ℕ
  seller_net gross rate = to_fixed (10000 * gross - gross * rate)

  -- The order of the winner, the money and the commission, all at the same rate.
  unfoldable pub settle_sale : ℕ → Auction → Bid → ℕ → Exec Db ⊤
  settle_sale k a b rate = do
    order_id ← order_create k a b OrderStatus.paid (some (pos (seller_net b.amount rate)))
    on_books (capture_run b.bidder_id a.seller_id b.amount k rate)
    record_for_order order_id rate

  -- With a winner. `captureHeldFunds` makes sure of the seller's wallet on a connection of its own:
  -- the wallet stays if the transaction is rolled back after that.
  abbrev pub close_with : ℕ → Auction → Bid → Exec Db ⊤
  close_with k a b = do
    rate ← gets (λ s. resolve_rate a.seller_id s.commission_configs)
    existing ← gets (λ s. order_of_auction k s.orders)
    raise_if (elim existing [ none ↦ false | some row ↦ true ]) unique_violation
    on_books (asegurar_monedero a.seller_id true)
    transaction do set_status k AuctionStatus.closed; settle_sale k a b rate
    bids ← gets (λ s. s.bids)
    release_losers k (losers k b.bidder_id bids)

  -- One round of the loop of `closeExpiredAuctions`, on the auction as the query returned it.
  unfoldable pub close_auction : ℕ → Auction → Option Bid → Exec Db ⊤
  close_auction k a none = transaction (set_status k AuctionStatus.closed)
  close_auction k a (some b) = close_with k a b

  abbrev pub close_rows : List (ℕ × Auction × Option Bid) → Exec Db ⊤
  close_rows [] = pure tt
  close_rows ((k, a, b) ∷ rows) = do attempt (close_auction k a b); close_rows rows

  -- The active auctions whose end has come, each with its highest bid.
  abbrev pub expired : Db → Table Auction → List (ℕ × Auction × Option Bid)
  expired s [] = []
  expired s ((k, a) ∷ t) =
      if same_status a.status AuctionStatus.active && leb a.ends_at s.books.now
      then (k, a, top_bid k s.bids) ∷ expired s t
      else expired s t

  unfoldable pub close_expired_auctions : Exec Db ⊤
  close_expired_auctions = do close_rows (← gets (λ s. expired s s.auctions))

abbrev pub is_live : DisputeStatus → Bool
is_live DisputeStatus.open_case = true
is_live DisputeStatus.in_mediation = true
is_live DisputeStatus.resolved = false
is_live DisputeStatus.closed = false

abbrev pub has_live_dispute : ℕ → Table Dispute → Bool
has_live_dispute order_id t = elim (dispute_of_order order_id t) [
  | none ↦ false
  | some row ↦ is_live row.1.status
]

-- `shipment: { deliveredAt: { lte: now - hours } }`
abbrev pub is_confirmed : Option (ℕ × Shipment) → ℕ → ℕ → Bool
is_confirmed none hold at = false
is_confirmed (some (k, x)) hold at = elim x.delivered_at [
  | none ↦ false
  | some t ↦ leb (t + hold) at
]

abbrev pub hour_ms : ℕ
hour_ms = 60 * 60 * 1000

-- The `where` clause of `releaseMaturedSettlements`.
unfoldable pub is_matured : Db → ℕ → Order → Bool
is_matured s order_id o =
    elim o.seller_settled_at [ none ↦ true | some t ↦ false ]
    && elim o.seller_net [ none ↦ false | some n ↦ true ]
    && not (has_live_dispute order_id s.disputes)
    && (is_confirmed (shipment_of_order order_id s.shipments)
          (s.settings.settlement_holdback_hours * hour_ms) s.books.now
        || leb (o.created_at + s.settings.dispute_window_days * 24 * hour_ms) s.books.now)

-- `tx.order.update({ data: { sellerSettledAt: new Date() } })`
abbrev pub mark_settled : ℕ → Exec Db ⊤
mark_settled order_id = do
  o ← or_raise (← gets (λ s. lookup order_id s.orders)) record_missing
  at ← now
  order_update order_id (record o { seller_settled_at = some at })

unfoldable pub release_order : ℕ → Order → Exec Db ⊤
release_order order_id o = transaction do
  net ← or_raise o.seller_net record_missing
  on_books (release_settlement_run o.seller_id net order_id)
  mark_settled order_id

abbrev pub release_rows : Table Order → Exec Db ⊤
release_rows [] = pure tt
release_rows ((k, o) ∷ t) = do attempt (release_order k o); release_rows t

abbrev pub matured : Db → Table Order → Table Order
matured s [] = []
matured s ((k, o) ∷ t) = if is_matured s k o then (k, o) ∷ matured s t else matured s t

unfoldable pub release_matured_settlements : Exec Db ⊤
release_matured_settlements = do release_rows (← gets (λ s. matured s s.orders))
