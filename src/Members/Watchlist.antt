-- ===== src/Members/Watchlist.antt =====
-- src/api/src/modules/watchlist/watchlist.service.ts: the auctions that a user watches.
pub mod Laws
use iron_loot.Common.{
  ℕ, zero, suc, ◌+◌, ◌-◌, ◌*◌, ◌/◌, ◌%◌, ◌≤◌, ◌<◌, ◌≡◌, refl, sym, ap, ◌∙◌, ◌≢◌, ◌⊎◌, inl, inr,
  Bool, true, false, ◌&&◌, ◌||◌, not, Option, none, some, List, [], ◌∷◌, ◌++◌, map, arith, ltb, leb,
  ◌==◌, if◌then◌else◌, ==_iff, Bool-cases, Option-cases, ℤ, pos, negsuc, pos_part, neg_part, sub_ℕ,
  ◌+ℤ◌, ◌-ℤ◌, ◌≤ℤ◌, ◌<ℤ◌, ltb_ℤ, leb_ℤ, min_ℤ, max_ℤ, +ℤ_parts, -ℤ_parts, eq_of_parts, int_laws,
  All, length, select, find_first,
}
use iron_loot.Exec.{
  Error, Result, ok, err, ⊤, Exec, pure, raise, gets, or_raise, settle, transaction, recover, catch,
  raise_if, modify, continue, ◌>>=◌, ◌>>◌, attempt, not_found, bad_request, forbidden, validation,
  insufficient_balance, auction_not_found, auction_not_active, bid_too_low, bid_on_own_auction,
  order_not_found, user_not_found, unique_violation, record_missing, outcome_cases,
  connection_failed, invalid_credentials, email_already_exists, user_not_verified, user_suspended,
  user_banned, token_expired, token_invalid, conflict,
}
use iron_loot.Table.{
  Table, lookup, insert, lookup-insert, lookup-insert_self, lookup-insert_ne, find_first-insert,
  find_first_holds,
}
use iron_loot.Members.Rows.{Db}

abbrev same_pair : ℕ → ℕ → ℕ × ℕ → Bool
same_pair user_id auction_id (u, a) = (u == user_id) && (a == auction_id)

unfoldable pub is_watched : ℕ → ℕ → List (ℕ × ℕ) → Bool
is_watched user_id auction_id [] = false
is_watched user_id auction_id (p ∷ ps) =
    same_pair user_id auction_id p || is_watched user_id auction_id ps

unfoldable pub unwatched : ℕ → ℕ → List (ℕ × ℕ) → List (ℕ × ℕ)
unwatched user_id auction_id [] = []
unwatched user_id auction_id (p ∷ ps) =
    let rest = unwatched user_id auction_id ps in
    if same_pair user_id auction_id p then rest else p ∷ rest

-- `upsert`, under `@@unique([userId, auctionId])`.
unfoldable pub add : ℕ → ℕ → Exec Db ⊤
add user_id auction_id = do
  a ← or_raise (← gets (λ s. lookup auction_id s.auctions)) auction_not_found
  modify (λ s.
      if is_watched user_id auction_id s.watchlist
      then s
      else record s { watchlist = (user_id, auction_id) ∷ s.watchlist })

abbrev watch_delete : ℕ → ℕ → Exec Db ⊤
watch_delete user_id auction_id s =
    if is_watched user_id auction_id s.watchlist
    then (ok tt, record s { watchlist = unwatched user_id auction_id s.watchlist })
    else (err record_missing, s)

abbrev ignored : Error → Exec Db ⊤
ignored record_missing = pure tt
ignored e = raise e

unfoldable pub remove : ℕ → ℕ → Exec Db ⊤
remove user_id auction_id = catch (watch_delete user_id auction_id) ignored
