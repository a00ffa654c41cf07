-- ===== src/Market/Auctions.antt =====
-- src/api/src/modules/auctions/auctions.service.ts: creating, changing and publishing an auction. The slug
-- of a title is an argument, since nanoid draws a part of it.
pub mod Laws
use iron_loot.Common.{
  ℕ, zero, suc, ◌+◌, ◌-◌, ◌*◌, ◌/◌, ◌%◌, ◌≤◌, ◌<◌, ◌≡◌, refl, sym, ap, ◌∙◌, ◌≢◌, ◌⊎◌, inl, inr,
  Bool, true, false, ◌&&◌, ◌||◌, not, Option, none, some, List, [], ◌∷◌, ◌++◌, map, arith, ltb, leb,
  ◌==◌, if◌then◌else◌, ==_iff, Bool-cases, Option-cases, ℤ, pos, negsuc, pos_part, neg_part, sub_ℕ,
  ◌+ℤ◌, ◌-ℤ◌, ◌≤ℤ◌, ◌<ℤ◌, ltb_ℤ, leb_ℤ, min_ℤ, max_ℤ, +ℤ_parts, -ℤ_parts, eq_of_parts, int_laws,
  All, length, select, find_first,
}
use iron_loot.Exec.{
  Error, Result, ok, err, ⊤, Exec, pure, raise, gets, or_raise, settle, transaction, recover, catch,
  raise_if, modify, continue, ◌>>=◌, ◌>>◌, attempt, not_found, bad_request, forbidden, validation,
  insufficient_balance, auction_not_found, auction_not_active, bid_too_low, bid_on_own_auction,
  order_not_found, user_not_found, unique_violation, record_missing,
}
use iron_loot.Table.{Table, lookup, insert, lookup-insert, lookup-insert_self, lookup-insert_ne}
use Prim.Native.String.{String}
use iron_loot.Core.Auction.{AuctionStatus, can_transition, same_status}
use iron_loot.Market.Rows.{Auction, Db, now, fresh_id, auction_update}

pub record CreateAuctionDto : Type 0 where
  pub title : String
  pub description : String
  pub starting_price : ℕ
  pub starts_at : Option ℕ
  pub ends_at : ℕ

pub record UpdateAuctionDto : Type 0 where
  pub title : Option String
  pub description : Option String
  pub starting_price : Option ℕ
  pub starts_at : Option ℕ
  pub ends_at : Option ℕ

abbrev pub get_or {ℓ} : {A : Type ℓ} → Option A → A → A
get_or none a = a
get_or (some b) a = b

-- `startsAt` was given and lies more than a minute in the past.
abbrev pub is_past : Option ℕ → ℕ → Bool
is_past none at = false
is_past (some t) at = ltb (t + 60000) at

unfoldable pub create : ℕ → CreateAuctionDto → String → Exec Db ℕ
create user dto slug = do
  is_seller ← or_raise (← gets (λ s. lookup user s.sellers)) user_not_found
  raise_if (not is_seller) forbidden
  at ← now
  let starts_at = get_or dto.starts_at at
  raise_if (leb dto.ends_at starts_at) validation
  raise_if (is_past dto.starts_at at) validation
  id ← fresh_id
  auction_update id (record {
    title = dto.title;
    description = dto.description;
    slug = slug;
    seller_id = user;
    status = AuctionStatus.draft;
    starting_price = dto.starting_price;
    current_price = dto.starting_price;
    starts_at = starts_at;
    ends_at = dto.ends_at;
  })
  pure id

-- The guards that `update` and `publish` share.
abbrev pub editable : ℕ → ℕ → Exec Db Auction
editable user id = do
  a ← or_raise (← gets (λ s. lookup id s.auctions)) validation
  raise_if (not (a.seller_id == user)) forbidden
  raise_if (not (can_transition a.status AuctionStatus.published)) validation
  pure a

-- `dto.title ? generateSlug(dto.title) : undefined`, for a title that is not empty.
abbrev new_slug : Option String → String → String → String
new_slug none slug old = old
new_slug (some title) slug old = slug

-- The row with what the request changes.
abbrev pub changed : UpdateAuctionDto → String → Auction → Auction
changed dto slug a = record a {
  title = get_or dto.title a.title;
  description = get_or dto.description a.description;
  slug = new_slug dto.title slug a.slug;
  starting_price = get_or dto.starting_price a.starting_price;
  starts_at = get_or dto.starts_at a.starts_at;
  ends_at = get_or dto.ends_at a.ends_at;
}

unfoldable pub update : ℕ → ℕ → UpdateAuctionDto → String → Exec Db ⊤
update user id dto slug = do a ← editable user id; auction_update id (changed dto slug a)

abbrev pub week_ms : ℕ
week_ms = 7 * 24 * 60 * 60 * 1000

-- What is left of the planned duration, a week if there is none.
abbrev pub final_duration : Auction → ℕ
final_duration a = if ltb a.starts_at a.ends_at then a.ends_at - a.starts_at else week_ms

abbrev pub published_auction : Bool → Auction → ℕ → Auction
published_auction true a at = record a { status = AuctionStatus.pending_moderation }
published_auction false a at = record a {
  status = AuctionStatus.published;
  starts_at = at;
  ends_at = at + final_duration a;
}

unfoldable pub publish : ℕ → ℕ → Exec Db Auction
publish user id = do
  a ← editable user id
  at ← now
  moderated ← gets (λ s. s.settings.require_auction_moderation)
  auction_update id (published_auction moderated a at)
  pure (published_auction moderated a at)
