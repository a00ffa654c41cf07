-- ===== src/Market/Soundness.antt =====
-- What withdrawals and the end of an auction do to the books as a whole.
use iron_loot.Common.{
  ℕ, ◌≤◌, ◌≡◌, sym, ◌≢◌, inl, inr, true, false, ◌&&◌, not, some, arith, Bool-cases, Option-cases,
  pos, ◌-ℤ◌,
}
use iron_loot.Exec.{outcome_cases}
use iron_loot.Table.{lookup, insert}
use mathlib.Core.Path.{subst}
use iron_loot.Core.Auction.{AuctionStatus}
use iron_loot.Wallet.Rows.{Wallet, Books}
use iron_loot.Wallet.Effects.{IsSound, Moves, asegurar-Assured}
use iron_loot.Wallet.CallEffects.{withdraw-Moves, refund_withdrawal-Moves}
use iron_loot.Wallet.SaleEffects.{net_credit, capture_run-Moves}
use iron_loot.Wallet.Sales.{capture_run}
use iron_loot.Wallet.Payouts.{withdraw_covered}
use iron_loot.Wallet.{get_balance, get_wallet, refund_withdrawal}
use iron_loot.Market.Rows.{Auction, Bid, Db}
use iron_loot.Market.Orders.{order_of_auction, order_create}
use iron_loot.Market.Commissions.{resolve_rate, record_for_order, record_missing_order}
use iron_loot.Market.Withdrawals.{request, reject, is_requested, is_approved_request}
use iron_loot.Market.Withdrawals.Laws.{request_cases}
use iron_loot.Market.Scheduler.{settle_sale, close_auction, losers}
use iron_loot.Market.Scheduler.Losers.{release_losers-Released}

get_balance-IsSound : (u : ℕ) (s : Books) → IsSound s → IsSound (get_balance u s).1
unfolding get_balance get_wallet
get_balance-IsSound u s v = let a = asegurar-Assured s u false in rw (a.returns) (a.sound v)

pub request-IsSound :
    (user amount method : ℕ) (s : Db)
    → IsSound s.books
    → IsSound (request user amount method s).1.books
request-IsSound user amount method s v = elim (request_cases user amount method s) [
  | inl a ↦
      let x = pos amount in
      let h =
        withdraw_covered user x s.next_id a.wallet s.books a.found (omega (arith, a.positive))
          (a.covered) in
      let m = subst (Moves s.books (pos 0 -ℤ x)) h (withdraw-Moves user x s.next_id s.books v) in
      rw (a.returns) (m.0)
  | inr r ↦ elim r.same [
    | inl e ↦ rw (r.returns, e) v
    | inr g ↦ rw (r.returns) (subst (λ p. IsSound p.1) g (get_balance-IsSound user s.books v))
  ]
]

pub reject-IsSound : (id : ℕ) (s : Db) → IsSound s.books → IsSound (reject id s).1.books
unfolding reject
reject-IsSound id s v = elim (Option-cases (lookup id s.withdrawals)) [
  | inl e ↦ rw e v
  | inr (r, e) ↦
      elim (Bool-cases (not (is_requested r.status) && not (is_approved_request r.status))) [
        | inl q ↦ rw (e, q) v
        | inr q ↦ elim (outcome_cases (refund_withdrawal r.user_id (pos r.amount) id s.books)) [
          | inl (_, b, h) ↦
              rw (e, q, h)
                ((subst (Moves s.books (pos r.amount)) h
                  (refund_withdrawal-Moves r.user_id (pos r.amount) id s.books v)).0)
          | inr (x, b, h) ↦
              rw (e, q, h)
                (subst (λ c. IsSound c)
                  (sym (
                    subst (Moves s.books (pos r.amount)) h
                      (refund_withdrawal-Moves r.user_id (pos r.amount) id s.books v)))
                  v)
        ]
      ]
]

record_for_order_books : (k rate : ℕ) (s : Db) → (record_for_order k rate s).1.books ≡ s.books
unfolding record_for_order record_missing_order
record_for_order_books k rate s = elim (Option-cases (lookup k s.commission_records)) [
  | inr (r, e) ↦ ground arith
  | inl e ↦ elim (Option-cases (lookup k s.orders)) [
    | inl f ↦ ground arith
    | inr (o, f) ↦ ground arith
  ]
]

settle_sale-IsSound :
    (to_fixed : ℕ → ℕ) (k : ℕ) (a : Auction) (b : Bid) (rate : ℕ) (w : Wallet) (s : Db)
    → IsSound s.books
    → b.bidder_id ≢ a.seller_id
    → rate ≤ 10000
    → lookup a.seller_id s.books.wallets ≡ some w
    → IsSound (settle_sale to_fixed k a b rate s).1.books
unfolding settle_sale order_create
settle_sale-IsSound to_fixed k a b rate w s v ne p e =
    let m = capture_run-Moves b.bidder_id a.seller_id b.amount k rate w s.books v ne p e in
    elim (Option-cases (order_of_auction k s.orders)) [
      | inr (o, f) ↦ rw f v
      | inl f ↦ elim (outcome_cases (capture_run b.bidder_id a.seller_id b.amount k rate s.books)) [
        | inr (x, books, h) ↦
            rw (f, h)
              (subst (λ b. IsSound b)
                (sym (
                  subst (Moves s.books (net_credit w.pending_balance b.amount rate -ℤ pos b.amount))
                    h m))
                v)
        | inl (_, books, h) ↦
            rw (f, h, record_for_order_books)
              ((subst (Moves s.books (net_credit w.pending_balance b.amount rate -ℤ pos b.amount)) h
                m).0)
      ]
    ]

-- The end of an auction, with a winner or without.
pub close_auction-IsSound :
    (to_fixed : ℕ → ℕ) (k : ℕ) (a : Auction) (b : Bid) (s : Db)
    → IsSound s.books
    → b.bidder_id ≢ a.seller_id
    → resolve_rate a.seller_id s.commission_configs ≤ 10000
    → IsSound (close_auction to_fixed k a (some b) s).1.books
unfolding close_auction
close_auction-IsSound to_fixed k a b s v ne p = elim (Option-cases (order_of_auction k s.orders)) [
  | inr (o, f) ↦ rw f v
  | inl f ↦
      let y = asegurar-Assured s.books a.seller_id true in
      elim (Option-cases (lookup k s.auctions)) [
        | inl q ↦ rw (f, y.returns, q) (y.sound v)
        | inr (a', q) ↦
            let rate = resolve_rate a.seller_id s.commission_configs in
            let s₁ : Db = record s {
              books = y.books;
              auctions = insert k (record a' { status = AuctionStatus.closed }) s.auctions;
            } in
            let sound =
              settle_sale-IsSound to_fixed k a b rate y.wallet s₁ (y.sound v) ne p y.found in
            elim (outcome_cases (settle_sale to_fixed k a b rate s₁)) [
              | inr (x, s₂, h) ↦ rw (f, y.returns, q, h) (y.sound v)
              | inl (_, s₂, h) ↦
                  let rest = release_losers-Released k (losers k b.bidder_id s₂.bids) s₂ in
                  let sold = subst (λ r. IsSound r.1.books) h sound in
                  rw (f, y.returns, q, h, rest.returns) ((rest.sound sold).0)
            ]
      ]
]
