-- ===== src/Members/Rows.antt =====
-- The rows of src/api/src/modules/users, kyc, ratings and watchlist (src/api/prisma/schema.prisma), beside
-- the auctions, orders and shipments of the marketplace. A text is the list of its characters' codes.
use iron_loot.Common.{ℕ, ◌+◌, Bool, Option, none, some, List}
use iron_loot.Exec.{ok, err, ⊤, Exec, gets, record_missing}
use iron_loot.Table.{Table, lookup, insert}
use iron_loot.Auth.Rows.{UserState}
use iron_loot.Market.Rows.{Auction, Order, Shipment, KycStatus}
use iron_loot.Methods.Rows.{Text}

pub record User : Type 0 where
  pub display_name : Option Text
  pub avatar_url : Option Text
  pub state : UserState
  pub email_verified_at : Option ℕ
  pub is_seller : Bool
  pub seller_enabled_at : Option ℕ
  pub created_at : ℕ

pub record Profile : Type 0 where
  pub phone : Option Text
  pub address : Option Text
  pub city : Option Text
  pub country : Option Text
  pub postal_code : Option Text
  pub legal_name : Option Text

pub record KycSubmission : Type 0 where
  pub user_id : ℕ
  pub status : KycStatus
  pub reviewed_by : Option ℕ
  pub review_notes : Option Text

pub record Rating : Type 0 where
  pub order_id : ℕ
  pub author_id : ℕ
  pub target_id : ℕ
  pub score : ℕ

-- Users and profiles by the user, submissions and ratings by their identifier and the newest first,
-- and who watches which auction.
pub record Db : Type 0 where
  pub users : Table User
  pub profiles : Table Profile
  pub submissions : Table KycSubmission
  pub ratings : Table Rating
  pub watchlist : List (ℕ × ℕ)
  pub auctions : Table Auction
  pub orders : Table Order
  pub shipments : Table Shipment
  pub next_id : ℕ
  pub now : ℕ

abbrev pub now : Exec Db ℕ
now = gets (λ s. s.now)

abbrev pub fresh_id : Exec Db ℕ
fresh_id s = (ok s.next_id, record s { next_id = s.next_id + 1 })

abbrev pub find_user : ℕ → Exec Db (Option User)
find_user id = gets (λ s. lookup id s.users)

-- `update`, which throws without a row.
abbrev pub user_update : ℕ → (User → User) → Exec Db ⊤
user_update id data_of s = elim (lookup id s.users) [
  | none ↦ (err record_missing, s)
  | some u ↦ (ok tt, record s { users = insert id (data_of u) s.users })
]

abbrev pub submission_update : ℕ → (KycSubmission → KycSubmission) → Exec Db ⊤
submission_update id data_of s = elim (lookup id s.submissions) [
  | none ↦ (err record_missing, s)
  | some x ↦ (ok tt, record s { submissions = insert id (data_of x) s.submissions })
]
