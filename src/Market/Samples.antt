-- ===== src/Market/Samples.antt =====
-- A small marketplace, on which the tests run.
use iron_loot.Common.{
  ℕ, zero, suc, ◌≡◌, refl, ◌≢◌, true, false, none, some, List, [], ◌∷◌, arith, ◌==◌, ℤ, pos,
}
use iron_loot.Core.Auction.{AuctionStatus}
use iron_loot.Core.Order.{OrderStatus}
use iron_loot.Wallet.Rows.{Wallet, Ledger, LedgerType, ReferenceType, entry}
use iron_loot.Wallet.Posting.{Chain, balance_of}
use iron_loot.Wallet.Effects.{IsSound}
use iron_loot.Market.Rows.{Auction, Bid, Order, Shipment, ShipmentStatus, Db, Settings, KycStatus}

abbrev pub settings : Settings
settings = record {
  auction_min_increment = none;
  soft_close_window_sec = none;
  require_auction_moderation = false;
  withdrawal_daily_limit = 500000;
  dispute_window_days = 14;
  settlement_holdback_hours = 72;
}

-- User 1 holds 50.00 for a bid on auction 7 of seller 3, whom 45.00 of another sale await; user 2 has
-- 100.00.
abbrev pub bidder : Wallet
bidder = record {
  balance = pos 0;
  held_funds = pos 5000;
  pending_balance = pos 0;
  is_active = true;
}

abbrev pub rival : Wallet
rival = record {
  balance = pos 10000;
  held_funds = pos 0;
  pending_balance = pos 0;
  is_active = true;
}

abbrev pub merchant : Wallet
merchant = record {
  balance = pos 10000;
  held_funds = pos 0;
  pending_balance = pos 4500;
  is_active = true;
}

abbrev pub first_bid : Bid
first_bid = record { auction_id = 7; bidder_id = 1; amount = 5000; created_at = 0 }

abbrev pub lot : AuctionStatus → Auction
lot status = record {
  title = "lot";
  description = "a lot";
  slug = "lot";
  seller_id = 3;
  status = status;
  starting_price = 1000;
  current_price = 5000;
  starts_at = 0;
  ends_at = 200000;
}

abbrev pub paid_in : ℕ → ℤ → Ledger
paid_in u amount = entry u LedgerType.deposit amount (pos 0) amount 5 ReferenceType.payment 50

abbrev pub entries : List Ledger
entries =
    entry 1 LedgerType.hold_bid (pos 5000) (pos 5000) (pos 0) 7 ReferenceType.auction_bid 90
    ∷ paid_in 3 (pos 10000)
    ∷ paid_in 2 (pos 10000)
    ∷ paid_in 1 (pos 5000)
    ∷ []

abbrev pub db : Db
db = record {
  books = record {
    wallets = (1, bidder) ∷ (2, rival) ∷ (3, merchant) ∷ [];
    ledger = entries;
    now = 100000;
  };
  sellers = (3, true) ∷ [];
  auctions = (7, lot AuctionStatus.active) ∷ (8, lot AuctionStatus.published) ∷ [];
  bids = first_bid ∷ [];
  orders = [];
  shipments = [];
  disputes = [];
  refunds = [];
  withdrawals = [];
  commission_records = [];
  commission_configs = [];
  kyc = [];
  payment_methods = [];
  settings = settings;
  next_id = 100;
}

not_equal : (n k : ℕ) → n ≢ k → (n == k) ≡ false
not_equal n k h = ground arith

db-chained : (u : ℕ) → Chain u db.books.ledger (balance_of u db.books.wallets)
db-chained zero = refl
db-chained (suc zero) = (refl, (refl, refl))
db-chained (suc (suc zero)) = (refl, refl)
db-chained (suc (suc (suc zero))) = (refl, refl)
db-chained (suc (suc (suc (suc u)))) =
    let n = suc (suc (suc (suc u))) in
    rw (not_equal n 1 (omega arith), not_equal n 2 (omega arith), not_equal n 3 (omega arith))
      (ground arith)

pub db-IsSound : IsSound db.books
db-IsSound = record { reconciled = record { chained = db-chained }; solid = omega arith }

-- An order of another auction of the seller's, bought by user 1 for 50.00, 45.00 of which are due.
abbrev pub sale : OrderStatus → Order
sale status = record {
  auction_id = 9;
  buyer_id = 1;
  seller_id = 3;
  total_amount = 5000;
  status = status;
  seller_net = some (pos 4500);
  seller_settled_at = none;
  created_at = 0;
  updated_at = 0;
}

abbrev pub parcel : Shipment
parcel = record {
  order_id = 50;
  status = ShipmentStatus.shipped;
  shipped_at = some 10;
  delivered_at = none;
}

abbrev pub sale_db : OrderStatus → Db
sale_db status = record db { orders = (50, sale status) ∷ []; shipments = (60, parcel) ∷ [] }

-- User 2 has an approved identity and a verified method of payment.
abbrev pub account_db : Db
account_db = record db {
  kyc = (2, KycStatus.approved) ∷ [];
  payment_methods =
      (5, record { user_id = 2; reference_id = 5; is_active = true; is_verified = true }) ∷ [];
}
