-- ===== src/Market/Rows.antt =====
-- The rows of the marketplace (src/api/prisma/schema.prisma), over the wallets and the ledger. Prices and
-- amounts are in cents, times in milliseconds, identifiers are numbers.
use iron_loot.Common.{ℕ, ◌+◌, Bool, Option, none, some, List, [], ◌∷◌, ltb, ◌==◌, if◌then◌else◌, ℤ}
use iron_loot.Exec.{ok, ⊤, Exec, gets, modify}
use iron_loot.Table.{Table, insert}
use Prim.Native.String.{String}
use iron_loot.Core.Auction.{AuctionStatus}
use iron_loot.Core.Order.{OrderStatus}
use iron_loot.Core.Dispute.{DisputeStatus}
use iron_loot.Wallet.Rows.{Books}

pub record Auction : Type 0 where
  pub title : String
  pub description : String
  pub slug : String
  pub seller_id : ℕ
  pub status : AuctionStatus
  pub starting_price : ℕ
  pub current_price : ℕ
  pub starts_at : ℕ
  pub ends_at : ℕ

pub record Bid : Type 0 where
  pub auction_id : ℕ
  pub bidder_id : ℕ
  pub amount : ℕ
  pub created_at : ℕ

pub record Order : Type 0 where
  pub auction_id : ℕ
  pub buyer_id : ℕ
  pub seller_id : ℕ
  pub total_amount : ℕ
  pub status : OrderStatus
  pub seller_net : Option ℤ
  pub seller_settled_at : Option ℕ
  pub created_at : ℕ
  pub updated_at : ℕ

pub data ShipmentStatus : Type 0 where
  pending shipped delivered returned : ShipmentStatus

pub record Shipment : Type 0 where
  pub order_id : ℕ
  pub status : ShipmentStatus
  pub shipped_at : Option ℕ
  pub delivered_at : Option ℕ

pub record Dispute : Type 0 where
  pub order_id : ℕ
  pub creator_id : ℕ
  pub status : DisputeStatus

pub data RefundStatus : Type 0 where
  pending_refund processing completed failed : RefundStatus

pub record RefundRequest : Type 0 where
  pub order_id : ℕ
  pub amount : ℕ
  pub status : RefundStatus
  pub initiated_by : ℕ
  pub resolved_at : Option ℕ

pub data WithdrawalStatus : Type 0 where
  requested approved processing paid rejected failed : WithdrawalStatus

pub record WithdrawalRequest : Type 0 where
  pub user_id : ℕ
  pub payment_method_id : ℕ
  pub amount : ℕ
  pub status : WithdrawalStatus

pub data CommissionStatus : Type 0 where
  pending collected : CommissionStatus

pub record CommissionRecord : Type 0 where
  pub seller_id : ℕ
  pub amount : ℕ
  pub rate : ℕ
  pub status : CommissionStatus

-- Whom a configured rate is for; no code reads the rates of a category.
pub data CommissionType : Type 0 where
  global category : CommissionType
  seller : ℕ → CommissionType

pub record CommissionConfig : Type 0 where
  pub type : CommissionType
  pub rate : ℕ

pub data KycStatus : Type 0 where
  pending approved rejected correction_needed : KycStatus

-- The text of the reference is a number.
pub record PaymentMethod : Type 0 where
  pub user_id : ℕ
  pub reference_id : ℕ
  pub is_active : Bool
  pub is_verified : Bool

-- What the environment and the table of settings hold; `none` is a value that is not a number.
pub record Settings : Type 0 where
  pub auction_min_increment : Option ℕ
  pub soft_close_window_sec : Option ℕ
  pub require_auction_moderation : Bool
  pub withdrawal_daily_limit : ℕ
  pub dispute_window_days : ℕ
  pub settlement_holdback_hours : ℕ

-- Bids stand newest first. Commission records are named by their order, which is unique; all other
-- rows by their own identifier, drawn from `next_id`.
pub record Db : Type 0 where
  pub books : Books
  pub sellers : Table Bool
  pub auctions : Table Auction
  pub bids : List Bid
  pub orders : Table Order
  pub shipments : Table Shipment
  pub disputes : Table Dispute
  pub refunds : Table RefundRequest
  pub withdrawals : Table WithdrawalRequest
  pub commission_records : Table CommissionRecord
  pub commission_configs : Table CommissionConfig
  pub kyc : Table KycStatus
  pub payment_methods : Table PaymentMethod
  pub settings : Settings
  pub next_id : ℕ

-- A call of the wallet service.
abbrev pub on_books : {A : Type 0} → Exec Books A → Exec Db A
on_books m s = let (r, b) = m s.books in (r, record s { books = b })

abbrev pub now : Exec Db ℕ
now = gets (λ s. s.books.now)

-- The identifier of a new row.
abbrev pub fresh_id : Exec Db ℕ
fresh_id s = (ok s.next_id, record s { next_id = s.next_id + 1 })

abbrev pub auction_update : ℕ → Auction → Exec Db ⊤
auction_update k a = modify (λ s. record s { auctions = insert k a s.auctions })

abbrev pub order_update : ℕ → Order → Exec Db ⊤
order_update k o =
    modify (λ s. record s { orders = insert k (record o { updated_at = s.books.now }) s.orders })

-- The higher of two bids, the first one if they are equal.
abbrev pub higher : Bid → Option Bid → Bid
higher b none = b
higher b (some c) = if ltb b.amount c.amount then c else b

-- `bids: { orderBy: { amount: 'desc' }, take: 1 }`
abbrev pub top_bid : ℕ → List Bid → Option Bid
top_bid k [] = none
top_bid k (b ∷ bs) =
    let rest = top_bid k bs in if b.auction_id == k then some (higher b rest) else rest

-- `SystemConfigService.getNumber`
abbrev pub get_number : Option ℕ → ℕ → ℕ
get_number none fallback = fallback
get_number (some n) fallback = n
