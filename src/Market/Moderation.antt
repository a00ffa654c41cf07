-- ===== src/Market/Moderation.antt =====
-- src/api/src/modules/admin/admin.service.ts: the administration moderates auctions.
pub mod Laws
use iron_loot.Common.{
  ℕ, zero, suc, ◌+◌, ◌-◌, ◌*◌, ◌/◌, ◌%◌, ◌≤◌, ◌<◌, ◌≡◌, refl, sym, ap, ◌∙◌, ◌≢◌, ◌⊎◌, inl, inr,
  Bool, true, false, ◌&&◌, ◌||◌, not, Option, none, some, List, [], ◌∷◌, ◌++◌, map, arith, ltb, leb,
  ◌==◌, if◌then◌else◌, ==_iff, Bool-cases, Option-cases, ℤ, pos, negsuc, pos_part, neg_part, sub_ℕ,
  ◌+ℤ◌, ◌-ℤ◌, ◌≤ℤ◌, ◌<ℤ◌, ltb_ℤ, leb_ℤ, min_ℤ, max_ℤ, +ℤ_parts, -ℤ_parts, eq_of_parts, int_laws,
  All, length, select, find_first,
}
use iron_loot.Exec.{
  Error, Result, ok, err, ⊤, Exec, pure, raise, gets, or_raise, settle, transaction, recover, catch,
  raise_if, modify, continue, ◌>>=◌, ◌>>◌, attempt, not_found, bad_request, forbidden, validation,
  insufficient_balance, auction_not_found, auction_not_active, bid_too_low, bid_on_own_auction,
  order_not_found, user_not_found, unique_violation, record_missing, outcome_cases,
  connection_failed, invalid_credentials, email_already_exists, user_not_verified, user_suspended,
  user_banned, token_expired, token_invalid,
}
use iron_loot.Table.{
  Table, lookup, insert, lookup-insert, lookup-insert_self, lookup-insert_ne, find_first-insert,
  find_first_holds,
}
use iron_loot.Core.Auction.{AuctionStatus, same_status, has, can_transition}
use iron_loot.Market.Rows.{Auction, Db}

abbrev auction_status : ℕ → AuctionStatus → Exec Db ⊤
auction_status id status = do
  a ← or_raise (← gets (λ s. lookup id s.auctions)) record_missing
  modify (λ s. record s { auctions = insert id (record a { status = status }) s.auctions })

abbrev pub is_over : AuctionStatus → Bool
is_over status = has status (AuctionStatus.closed ∷ AuctionStatus.cancelled ∷ [])

unfoldable pub assert_auction_modifiable : ℕ → Exec Db ⊤
assert_auction_modifiable id = do
  a ← or_raise (← gets (λ s. lookup id s.auctions)) not_found
  raise_if (is_over a.status) bad_request

-- The door through which the panel changes an auction's status; the note that the panel writes with
-- it is left out, like all texts.
unfoldable pub transicionar : ℕ → AuctionStatus → Exec Db ⊤
transicionar id destino = do
  a ← or_raise (← gets (λ s. lookup id s.auctions)) not_found
  raise_if (same_status a.status destino) bad_request
  raise_if (not (can_transition a.status destino)) bad_request
  auction_status id destino

unfoldable pub approve_auction : ℕ → Exec Db ⊤
approve_auction id = do assert_auction_modifiable id; transicionar id AuctionStatus.published

unfoldable pub reject_auction : ℕ → Exec Db ⊤
reject_auction id = do assert_auction_modifiable id; transicionar id AuctionStatus.draft

unfoldable pub suspend_auction : ℕ → Exec Db ⊤
suspend_auction id = do assert_auction_modifiable id; transicionar id AuctionStatus.suspended

unfoldable pub force_close_auction : ℕ → Exec Db ⊤
force_close_auction id = do assert_auction_modifiable id; transicionar id AuctionStatus.closed

unfoldable pub reopen_auction : ℕ → Exec Db ⊤
reopen_auction id = transicionar id AuctionStatus.published

unfoldable pub cancel_auction : ℕ → Exec Db ⊤
cancel_auction id = transicionar id AuctionStatus.cancelled

-- The queue of moderation writes the status without asking the state machine.
unfoldable pub approve_moderation : ℕ → Exec Db ⊤
approve_moderation id = auction_status id AuctionStatus.published

unfoldable pub reject_moderation : ℕ → Exec Db ⊤
reject_moderation id = auction_status id AuctionStatus.draft
