-- ===== src/Members/Kyc.antt =====
-- src/api/src/modules/kyc/kyc.service.ts: the review of a user's documents.
pub mod Laws
use iron_loot.Common.{
  ℕ, zero, suc, ◌+◌, ◌-◌, ◌*◌, ◌/◌, ◌%◌, ◌≤◌, ◌<◌, ◌≡◌, refl, sym, ap, ◌∙◌, ◌≢◌, ◌⊎◌, inl, inr,
  Bool, true, false, ◌&&◌, ◌||◌, not, Option, none, some, List, [], ◌∷◌, ◌++◌, map, arith, ltb, leb,
  ◌==◌, if◌then◌else◌, ==_iff, Bool-cases, Option-cases, ℤ, pos, negsuc, pos_part, neg_part, sub_ℕ,
  ◌+ℤ◌, ◌-ℤ◌, ◌≤ℤ◌, ◌<ℤ◌, ltb_ℤ, leb_ℤ, min_ℤ, max_ℤ, +ℤ_parts, -ℤ_parts, eq_of_parts, int_laws,
  All, length, select, find_first,
}
use iron_loot.Exec.{
  Error, Result, ok, err, ⊤, Exec, pure, raise, gets, or_raise, settle, transaction, recover, catch,
  raise_if, modify, continue, ◌>>=◌, ◌>>◌, attempt, not_found, bad_request, forbidden, validation,
  insufficient_balance, auction_not_found, auction_not_active, bid_too_low, bid_on_own_auction,
  order_not_found, user_not_found, unique_violation, record_missing, outcome_cases,
  connection_failed, invalid_credentials, email_already_exists, user_not_verified, user_suspended,
  user_banned, token_expired, token_invalid, conflict,
}
use iron_loot.Table.{
  Table, lookup, insert, lookup-insert, lookup-insert_self, lookup-insert_ne, find_first-insert,
  find_first_holds,
}
use iron_loot.Market.Rows.{KycStatus}
use iron_loot.Methods.Rows.{Text}
use iron_loot.Members.Rows.{User, KycSubmission, Db, now, fresh_id, user_update, submission_update}

-- The documents themselves are not kept here.
unfoldable pub submit : ℕ → Exec Db ℕ
submit user_id = do
  id ← fresh_id
  let x : KycSubmission = record {
    user_id = user_id;
    status = KycStatus.pending;
    reviewed_by = none;
    review_notes = none;
  }
  modify (λ s. record s { submissions = (id, x) ∷ s.submissions })
  pure id

abbrev pub enabled_at : ℕ → User → User
enabled_at at u = record u { is_seller = true; seller_enabled_at = some at }

unfoldable pub approve : ℕ → ℕ → Exec Db ⊤
approve id admin = do
  x ← or_raise (← gets (λ s. lookup id s.submissions)) not_found
  at ← now
  transaction do
    submission_update id (λ y. record y { status = KycStatus.approved; reviewed_by = some admin })
    user_update x.user_id (enabled_at at)

abbrev noted : KycStatus → Text → ℕ → KycSubmission → KycSubmission
noted status text admin y = record y {
  status = status;
  reviewed_by = some admin;
  review_notes = some text;
}

unfoldable pub reject : ℕ → Text → ℕ → Exec Db ⊤
reject id reason admin = submission_update id (noted KycStatus.rejected reason admin)

unfoldable pub request_correction : ℕ → Text → ℕ → Exec Db ⊤
request_correction id notes admin =
    submission_update id (noted KycStatus.correction_needed notes admin)

abbrev pub is_of : ℕ → ℕ × KycSubmission → Bool
is_of user_id (id, x) = x.user_id == user_id

abbrev pub status_of : Option (ℕ × KycSubmission) → Option KycStatus
status_of none = none
status_of (some (id, x)) = some x.status

-- The status of the newest submission.
abbrev pub get_user_kyc_status : ℕ → Exec Db (Option KycStatus)
get_user_kyc_status user_id = gets (λ s. status_of (find_first (is_of user_id) s.submissions))
