-- ===== src/Members/Ratings.antt =====
-- src/api/src/modules/ratings/ratings.service.ts, and the statistics of users/users.service.ts.
pub mod Laws
use iron_loot.Common.{
  ℕ, zero, suc, ◌+◌, ◌-◌, ◌*◌, ◌/◌, ◌%◌, ◌≤◌, ◌<◌, ◌≡◌, refl, sym, ap, ◌∙◌, ◌≢◌, ◌⊎◌, inl, inr,
  Bool, true, false, ◌&&◌, ◌||◌, not, Option, none, some, List, [], ◌∷◌, ◌++◌, map, arith, ltb, leb,
  ◌==◌, if◌then◌else◌, ==_iff, Bool-cases, Option-cases, ℤ, pos, negsuc, pos_part, neg_part, sub_ℕ,
  ◌+ℤ◌, ◌-ℤ◌, ◌≤ℤ◌, ◌<ℤ◌, ltb_ℤ, leb_ℤ, min_ℤ, max_ℤ, +ℤ_parts, -ℤ_parts, eq_of_parts, int_laws,
  All, length, select, find_first,
}
use iron_loot.Exec.{
  Error, Result, ok, err, ⊤, Exec, pure, raise, gets, or_raise, settle, transaction, recover, catch,
  raise_if, modify, continue, ◌>>=◌, ◌>>◌, attempt, not_found, bad_request, forbidden, validation,
  insufficient_balance, auction_not_found, auction_not_active, bid_too_low, bid_on_own_auction,
  order_not_found, user_not_found, unique_violation, record_missing, outcome_cases,
  connection_failed, invalid_credentials, email_already_exists, user_not_verified, user_suspended,
  user_banned, token_expired, token_invalid, conflict,
}
use iron_loot.Table.{
  Table, lookup, insert, lookup-insert, lookup-insert_self, lookup-insert_ne, find_first-insert,
  find_first_holds,
}
use iron_loot.Core.Order.{OrderStatus, same_status}
use iron_loot.Market.Rows.{Order, Shipment, ShipmentStatus}
use iron_loot.Market.Shipments.{shipment_of_order}
use iron_loot.Members.Rows.{Rating, Db, fresh_id, find_user}

abbrev pub is_delivered : Option (ℕ × Shipment) → Bool
is_delivered none = false
is_delivered (some (id, x)) = elim x.status [ ShipmentStatus.delivered ↦ true | _ ↦ false ]

abbrev pub is_by : ℕ → ℕ → ℕ × Rating → Bool
is_by order_id author_id (id, r) = (r.order_id == order_id) && (r.author_id == author_id)

abbrev pub is_found : {A : Type 0} → Option A → Bool
is_found none = false
is_found (some a) = true

-- `rating.create`, under `@@unique([orderId, authorId])`.
unfoldable pub rating_create : Rating → Exec Db ℕ
rating_create r s =
    let clash = is_found (find_first (is_by r.order_id r.author_id) s.ratings) in
    if clash
    then (err unique_violation, s)
    else (ok s.next_id, record s { ratings = (s.next_id, r) ∷ s.ratings; next_id = s.next_id + 1 })

abbrev translated : Error → Exec Db ℕ
translated unique_violation = raise bad_request
translated e = raise e

-- What is checked, and gives the rating that is then written.
unfoldable pub check_rating : ℕ → ℕ → ℕ → Exec Db Rating
check_rating user_id order_id score = do
  o ← or_raise (← gets (λ s. lookup order_id s.orders)) not_found
  raise_if (not ((o.buyer_id == user_id) || (o.seller_id == user_id))) forbidden
  x ← gets (λ s. shipment_of_order order_id s.shipments)
  raise_if (not (is_delivered x)) bad_request
  existing ← gets (λ s. find_first (is_by order_id user_id) s.ratings)
  raise_if (is_found existing) bad_request
  pure (record {
    order_id = order_id;
    author_id = user_id;
    target_id = if o.buyer_id == user_id then o.seller_id else o.buyer_id;
    score = score;
  })

-- Other requests may come between the check and this.
unfoldable pub write_rating : Rating → Exec Db ℕ
write_rating r = catch (rating_create r) translated

unfoldable pub create : ℕ → ℕ → ℕ → Exec Db ℕ
create user_id order_id score = do r ← check_rating user_id order_id score; write_rating r

abbrev pub is_about : ℕ → ℕ × Rating → Bool
is_about user_id (id, r) = r.target_id == user_id

unfoldable pub sum_scores : List (ℕ × Rating) → ℕ
sum_scores [] = 0
sum_scores ((id, r) ∷ rs) = r.score + sum_scores rs

-- The average is the sum of the scores and their number, zero where there is no rating.
pub record UserStatsDto : Type 0 where
  pub total_auctions_sold : ℕ
  pub total_auctions_won : ℕ
  pub score_sum : ℕ
  pub total_ratings : ℕ

abbrev sold_by : ℕ → ℕ × Order → Bool
sold_by user_id (id, o) =
    (o.seller_id == user_id) && not (same_status o.status OrderStatus.cancelled)

abbrev won_by : ℕ → ℕ × Order → Bool
won_by user_id (id, o) = (o.buyer_id == user_id) && not (same_status o.status OrderStatus.cancelled)

unfoldable pub get_user_stats : ℕ → Exec Db UserStatsDto
get_user_stats user_id = do
  u ← or_raise (← find_user user_id) user_not_found
  gets (λ s. record {
    total_auctions_sold = length (select (sold_by user_id) s.orders);
    total_auctions_won = length (select (won_by user_id) s.orders);
    score_sum = sum_scores (select (is_about user_id) s.ratings);
    total_ratings = length (select (is_about user_id) s.ratings);
  })
