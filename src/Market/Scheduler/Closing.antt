-- ===== src/Market/Scheduler/Closing.antt =====
-- What the end of an auction leaves behind.
use iron_loot.Common.{ℕ, ◌+◌, ◌≡◌, refl, ◌∙◌, ◌≢◌, inl, inr, true, none, some, arith, pos, ◌<ℤ◌}
use iron_loot.Exec.{Error, err, insufficient_balance, outcome_cases}
use iron_loot.Table.{lookup, insert}
use iron_loot.Core.Auction.{AuctionStatus}
use iron_loot.Core.Order.{OrderStatus}
use iron_loot.Wallet.Rows.{Wallet, Books}
use iron_loot.Wallet.Posting.{total}
use iron_loot.Wallet.Effects.{asegurar-Assured}
use iron_loot.Wallet.Sales.{capture_run}
use iron_loot.Market.Rows.{Auction, Bid, CommissionRecord, CommissionStatus, Db}
use iron_loot.Market.Orders.{order_of_auction, order_from, order_create}
use iron_loot.Market.Commissions.{resolve_rate, commission_of}
use iron_loot.Market.Scheduler.{seller_net, settle_sale, close_auction}

capture_run_short :
    (buyer seller amount r rate : ℕ) (b : Wallet) (s : Books)
    → lookup buyer s.wallets ≡ some b
    → b.held_funds <ℤ pos amount
    → capture_run buyer seller amount r rate s ≡ (err insufficient_balance, s)
unfolding capture_run
capture_run_short buyer seller amount r rate b s e h = ground arith

-- The rate of the sale, and the record of its commission.
abbrev pub rate_of : Auction → Db → ℕ
rate_of a s = resolve_rate a.seller_id s.commission_configs

abbrev pub commission_due : Auction → Bid → Db → CommissionRecord
commission_due a b s = record {
  seller_id = a.seller_id;
  amount = commission_of b.amount (rate_of a s);
  rate = rate_of a s;
  status = CommissionStatus.pending;
}

-- A table and the columns of the sale that is written into it.
abbrev sold_state : (ℕ → ℕ) → ℕ → Auction → Bid → ℕ → Books → Db → Db
sold_state to_fixed k a b rate books s =
    let net = some (pos (seller_net to_fixed b.amount rate)) in
    record s {
      books = books;
      orders = insert s.next_id (order_from k a b OrderStatus.paid net s.books.now) s.orders;
      commission_records =
          insert s.next_id
            (record {
              seller_id = a.seller_id;
              amount = commission_of b.amount rate;
              rate = rate;
              status = CommissionStatus.pending;
            })
            s.commission_records;
      next_id = s.next_id + 1;
    }

settle_sale_short :
    (to_fixed : ℕ → ℕ) (k : ℕ) (a : Auction) (b : Bid) (rate : ℕ) {e : Error} (books : Books)
    (s : Db)
    → order_of_auction k s.orders ≡ none
    → capture_run b.bidder_id a.seller_id b.amount k rate s.books ≡ (err e, books)
    → (settle_sale to_fixed k a b rate s).0 ≡ err e
unfolding settle_sale order_create
settle_sale_short to_fixed k a b rate books s f h = ground arith

module _ (to_fixed : ℕ → ℕ) (k : ℕ) (a a' : Auction) (b : Bid) (w : Wallet) (s : Db) where
  -- What the end of an auction with a winner finds: the auction, no order yet, and the winner's wallet.
  pub record Ends : Type 0 where
    pub found : lookup k s.auctions ≡ some a'
    pub no_order : order_of_auction k s.orders ≡ none
    pub wallet : lookup b.bidder_id s.books.wallets ≡ some w
    pub parties : b.bidder_id ≢ a.seller_id

  -- At the end of an auction whose winner, not the seller, holds less than the bid's amount, the
  -- call throws, and the transaction is taken back whole: the auction is not closed, no order is
  -- made, and the money on the platform is the same.
  pub close_auction-unpaid :
      Ends
      → w.held_funds <ℤ pos b.amount
      → let (r, s') = close_auction to_fixed k a (some b) s in
        (r ≡ err insufficient_balance)
        × (s' ≡ record s { books = s'.books })
        × (total s'.books.wallets ≡ total s.books.wallets)
  unfolding close_auction
  close_auction-unpaid ends short =
      let y = asegurar-Assured s.books a.seller_id true in
      let f = y.others b.bidder_id ends.parties ∙ ends.wallet in
      let c =
        capture_run_short b.bidder_id a.seller_id b.amount k (rate_of a s) w y.books f short in
      let s₁ : Db = record s {
        books = y.books;
        auctions = insert k (record a' { status = AuctionStatus.closed }) s.auctions;
      } in
      let sale = settle_sale_short to_fixed k a b (rate_of a s) y.books s₁ ends.no_order c in
      elim (outcome_cases (settle_sale to_fixed k a b (rate_of a s) s₁)) [
        | inl (_, st, h) ↦ absurd (cc (h, sale))
        | inr (e, st, h) ↦
            let same : e ≡ insufficient_balance = cc (h, sale) in
            rw (ends.no_order, y.returns, ends.found, h, same) (refl, refl, y.same_total)
      ]
