-- ===== src/Market/SaleTests.antt =====
-- The theorems on sales at concrete rows: orders, shipments, disputes, refunds and settlements.
use iron_loot.Common.{
  min_ℤ, ℕ, ◌+◌, ◌/◌, ◌≡◌, refl, ap, ◌⊎◌, true, false, none, some, List, [], ◌∷◌, arith, ◌==◌,
  if◌then◌else◌, pos, ◌+ℤ◌, ◌-ℤ◌,
}
use iron_loot.Exec.{Error, ok, err, bad_request, insufficient_balance}
use iron_loot.Table.{lookup, insert}
use iron_loot.Core.Auction.{AuctionStatus}
use iron_loot.Core.Order.{OrderStatus, can_transition}
use iron_loot.Core.Dispute.{can_open_dispute}
use iron_loot.Wallet.Rows.{asegurar_monedero}
use iron_loot.Wallet.Posting.{total}
use iron_loot.Wallet.Sales.{reversar_run}
use iron_loot.Market.Samples.{bidder, merchant, first_bid, lot, db, sale, parcel, sale_db}
use iron_loot.Market.Rows.{Bid, Order, ShipmentStatus, Db}
use iron_loot.Market.Shipments
use iron_loot.Market.Shipments.{stamped}
use iron_loot.Market.Shipments.Laws.{MayDeclare, followed, update_status-MayDeclare}
use iron_loot.Market.Disputes
use iron_loot.Market.Refunds.{create_refund, refund_run}
use iron_loot.Market.Refunds.Laws.{create_refund_once, create_refund_wallets}
use iron_loot.Market.Scheduler.{is_matured, release_order, losers, close_auction, seller_net}
use iron_loot.Market.Scheduler.Settlements.{settled, release_order-unpaid, release_order_once}
use iron_loot.Market.Scheduler.Losers.{highest_bid, lookup-losers}
use iron_loot.Market.Scheduler.Closing.{Ends, close_auction-unpaid}

abbrev dispatched : Db
dispatched = sale_db OrderStatus.shipped

update_status-MayDeclare_example :
    (MayDeclare 1 ShipmentStatus.delivered (sale OrderStatus.shipped)
      × (Shipments.update_status 1 60 ShipmentStatus.delivered dispatched ≡ (
        ok (stamped parcel ShipmentStatus.delivered dispatched.books.now),
        record dispatched {
          shipments =
              insert 60
                (stamped parcel ShipmentStatus.delivered dispatched.books.now)
                dispatched.shipments;
          orders = followed 50 (sale OrderStatus.shipped) ShipmentStatus.delivered dispatched;
        },
      )))
    ⊎ ((e : Error) × (Shipments.update_status 1 60 ShipmentStatus.delivered dispatched
          ≡ (err e, dispatched)))
update_status-MayDeclare_example =
    update_status-MayDeclare 1 60 ShipmentStatus.delivered parcel (sale OrderStatus.shipped)
      dispatched refl refl

dispute_ok : (Disputes.create 1 50 dispatched).0 ≡ ok 100
unfolding Disputes.create can_open_dispute
dispute_ok = refl

abbrev delivered : Db
delivered = sale_db OrderStatus.delivered

refund_ok : (create_refund 50 3000 0 delivered).0 ≡ ok 100
unfolding create_refund refund_run can_transition asegurar_monedero reversar_run
refund_ok = refl

create_refund_once_example :
    let s' = (create_refund 50 3000 0 delivered).1 in
    create_refund 50 2000 7 s' ≡ (err bad_request, s')
create_refund_once_example = create_refund_once 50 3000 0 100 2000 7 delivered refund_ok

create_refund_wallets_example :
    let t = (create_refund 50 3000 0 delivered).1.books.wallets in
    let kept = min_ℤ (pos 4500) (pos 3000) in
    (lookup 1 t ≡ some (record bidder { balance = pos 0 +ℤ pos 3000; is_active = true }))
    × (lookup 3 t
        ≡ some (record merchant {
          balance = pos 10000 -ℤ (pos 3000 -ℤ kept);
          pending_balance = pos 4500 -ℤ kept;
        }))
create_refund_wallets_example =
    create_refund_wallets 50 3000 0 100 (sale OrderStatus.delivered) bidder merchant delivered
      refund_ok refl (omega arith) refl refl

abbrev dear : Order
dear = record (sale OrderStatus.delivered) { seller_net = some (pos 4501) }

abbrev dear_db : Db
dear_db = record db { orders = (50, dear) ∷ [] }

dear_waits :
    release_order 50 dear dear_db
    ≡ (ok tt, record dear_db { orders = (50, settled dear 100000) ∷ [] })
dear_waits = release_order-unpaid 50 dear (pos 4501) dear_db refl refl merchant refl (omega arith)

release_order_once_example :
    is_matured (release_order 50 dear dear_db).1 50 (settled dear 100000) ≡ false
release_order_once_example =
    release_order_once 50 dear (settled dear 100000) dear_db refl (ap (λ r. r.0) dear_waits)
      (ap (λ r. lookup 50 r.1.orders) dear_waits)

abbrev second_bid : Bid
second_bid = record { auction_id = 7; bidder_id = 2; amount = 6000; created_at = 10 }

abbrev third_bid : Bid
third_bid = record { auction_id = 7; bidder_id = 1; amount = 7000; created_at = 20 }

abbrev bids : List Bid
bids = third_bid ∷ second_bid ∷ first_bid ∷ []

lookup-losers_example : lookup 1 (losers 7 2 bids) ≡ (if 1 == 2 then none else highest_bid 7 1 bids)
lookup-losers_example = lookup-losers 7 2 1 bids

abbrev to_fixed : ℕ → ℕ
to_fixed n = (n + 5000) / 10000

ends :
    (b : Bid)
    → b.bidder_id ≡ 1
    → Ends to_fixed 7 (lot AuctionStatus.active) (lot AuctionStatus.active) b bidder db
ends b h = record {
  found = refl;
  no_order = refl;
  wallet = rw h refl;
  parties = rw h (omega arith);
}

close_auction-unpaid_example :
    let (r, s') = close_auction to_fixed 7 (lot AuctionStatus.active) (some third_bid) db in
    (r ≡ err insufficient_balance)
    × (s' ≡ record db { books = s'.books })
    × (total s'.books.wallets ≡ total db.books.wallets)
close_auction-unpaid_example =
    close_auction-unpaid to_fixed 7 (lot AuctionStatus.active) (lot AuctionStatus.active) third_bid
      bidder db (ends third_bid refl) (omega arith)
