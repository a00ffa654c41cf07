-- ===== src/Market/Steps.antt =====
-- The marketplace as a whole: its calls one after another.
use iron_loot.Common.{ℕ, ◌≤◌, ◌≡◌, ◌≢◌, some}
use iron_loot.Table.{lookup}
use iron_loot.Wallet.Effects.{IsSound}
use iron_loot.Market.Rows.{Auction, Bid, Order, Db}
use iron_loot.Market.Bids.{place_bid}
use iron_loot.Market.Bids.Funds.{place_bid-IsSound}
use iron_loot.Market.Commissions.{resolve_rate}
use iron_loot.Market.Refunds.{create_refund}
use iron_loot.Market.Refunds.Laws.{create_refund-IsSound}
use iron_loot.Market.Withdrawals.{request, reject}
use iron_loot.Market.Scheduler.{close_auction, release_matured_settlements}
use iron_loot.Market.Scheduler.Sweep.{release_matured-IsSound}
use iron_loot.Market.Soundness.{request-IsSound, reject-IsSound, close_auction-IsSound}

module _ (to_fixed : ℕ → ℕ) where
  -- A call of a service that moves money, whether it returns or throws, and the passing of time. A sale
  -- and a refund are between two users, and a sale's rate is at most 100 %.
  pub data Step : Db → Db → Type 0 where
    bids : (user k amount : ℕ) {s : Db} → Step s (place_bid user k amount s).1
    closes :
        (k : ℕ) (a : Auction) (b : Bid) {s : Db}
        → b.bidder_id ≢ a.seller_id
        → resolve_rate a.seller_id s.commission_configs ≤ 10000
        → Step s (close_auction to_fixed k a (some b) s).1
    settles : {s : Db} → Step s (release_matured_settlements s).1
    refunds :
        (k amount by : ℕ) (o : Order) {s : Db}
        → lookup k s.orders ≡ some o
        → o.buyer_id ≢ o.seller_id
        → Step s (create_refund k amount by s).1
    requests : (user amount method : ℕ) {s : Db} → Step s (request user amount method s).1
    rejects : (id : ℕ) {s : Db} → Step s (reject id s).1
    waits : (at : ℕ) {s : Db} → Step s (record s { books = record s.books { now = at } })

  pub data Steps : Db → Db → Type 0 where
    stay : {s : Db} → Steps s s
    step : {s s' s'' : Db} → Step s s' → Steps s' s'' → Steps s s''

  Step-IsSound : {s s' : Db} → Step s s' → IsSound s.books → IsSound s'.books
  Step-IsSound (bids user k amount {s}) v = (place_bid-IsSound user k amount s v).0
  Step-IsSound (closes k a b {s} ne p) v = close_auction-IsSound to_fixed k a b s v ne p
  Step-IsSound (settles {s}) v = (release_matured-IsSound s v).0
  Step-IsSound (refunds k amount by o {s} e ne) v = (create_refund-IsSound k amount by o s e ne v).0
  Step-IsSound (requests user amount method {s}) v = request-IsSound user amount method s v
  Step-IsSound (rejects id {s}) v = reject-IsSound id s v
  Step-IsSound (waits at {s}) v = record {
    reconciled = record { chained = v.reconciled.chained };
    solid = v.solid;
  }

  -- Over any sequence of bids, ends of auctions with a winner, sweeps of settlements, refunds,
  -- withdrawal requests and rejections, and the passing of time, each returned or thrown, the
  -- wallets and the ledger stay sound: every available balance is explained by its user's ledger
  -- entries without a gap, and no wallet holds or awaits a negative amount. A sale and a refund are
  -- between two users, and a sale's rate is at most 100 %.
  pub Steps-IsSound : {s s' : Db} → Steps s s' → IsSound s.books → IsSound s'.books
  Steps-IsSound stay v = v
  Steps-IsSound (step x xs) v = Steps-IsSound xs (Step-IsSound x v)
