-- ===== src/Market/Withdrawals.antt =====
-- src/api/src/modules/wallet/withdrawals.service.ts: REQUESTED, APPROVED, PAID, or REJECTED.
pub mod Laws
use iron_loot.Common.{
  ℕ, zero, suc, ◌+◌, ◌-◌, ◌*◌, ◌/◌, ◌%◌, ◌≤◌, ◌<◌, ◌≡◌, refl, sym, ap, ◌∙◌, ◌≢◌, ◌⊎◌, inl, inr,
  Bool, true, false, ◌&&◌, ◌||◌, not, Option, none, some, List, [], ◌∷◌, ◌++◌, map, arith, ltb, leb,
  ◌==◌, if◌then◌else◌, ==_iff, Bool-cases, Option-cases, ℤ, pos, negsuc, pos_part, neg_part, sub_ℕ,
  ◌+ℤ◌, ◌-ℤ◌, ◌≤ℤ◌, ◌<ℤ◌, ltb_ℤ, leb_ℤ, min_ℤ, max_ℤ, +ℤ_parts, -ℤ_parts, eq_of_parts, int_laws,
  All, length, select, find_first,
}
use iron_loot.Exec.{
  Error, Result, ok, err, ⊤, Exec, pure, raise, gets, or_raise, settle, transaction, recover, catch,
  raise_if, modify, continue, ◌>>=◌, ◌>>◌, attempt, not_found, bad_request, forbidden, validation,
  insufficient_balance, auction_not_found, auction_not_active, bid_too_low, bid_on_own_auction,
  order_not_found, user_not_found, unique_violation, record_missing,
}
use iron_loot.Table.{Table, lookup, insert, lookup-insert, lookup-insert_self, lookup-insert_ne}
use iron_loot.Wallet.Rows.{Books, Ledger, LedgerType}
use iron_loot.Wallet.{get_balance, withdraw, refund_withdrawal}
use iron_loot.Market.Rows.{
  WithdrawalRequest, WithdrawalStatus, PaymentMethod, KycStatus, Db, on_books, now, fresh_id,
}

abbrev day_ms : ℕ
day_ms = 24 * 60 * 60 * 1000

abbrev is_withdrawal : LedgerType → Bool
is_withdrawal LedgerType.withdrawal = true
is_withdrawal _ = false

-- The withdrawals of the last day: the entries since `now - 1 day`.
unfoldable pub sum_withdrawals : ℕ → ℕ → List Ledger → ℤ
sum_withdrawals user at [] = pos 0
sum_withdrawals user at (e ∷ es) =
    let rest = sum_withdrawals user at es in
    if (e.wallet == user) && is_withdrawal e.type && leb at (e.created_at + day_ms)
    then e.amount +ℤ rest
    else rest

-- The wallet exists by then: `getBalance` has made sure of it.
abbrev get_daily_withdrawals : ℕ → Exec Db ℤ
get_daily_withdrawals user = gets (λ s. sum_withdrawals user s.books.now s.books.ledger)

abbrev pub is_approved : Option KycStatus → Bool
is_approved none = false
is_approved (some KycStatus.pending) = false
is_approved (some KycStatus.approved) = true
is_approved (some KycStatus.rejected) = false
is_approved (some KycStatus.correction_needed) = false

abbrev pub is_method_of : ℕ → ℕ → ℕ × PaymentMethod → Bool
is_method_of user reference (id, m) =
    (m.user_id == user) && (m.reference_id == reference) && m.is_active

-- `getUserPaymentMethod`: an active method of the user's with this reference.
abbrev pub user_payment_method : ℕ → ℕ → Table PaymentMethod → Option (ℕ × PaymentMethod)
user_payment_method user reference t = find_first (is_method_of user reference) t

abbrev request_put : ℕ → WithdrawalRequest → Exec Db ⊤
request_put k r = modify (λ s. record s { withdrawals = insert k r s.withdrawals })

-- The request is written before its funds are taken, and not in one transaction with them.
unfoldable pub request : ℕ → ℕ → ℕ → Exec Db ℕ
request user amount method_id = do
  raise_if (amount == 0) bad_request
  raise_if (not (is_approved (← gets (λ s. lookup user s.kyc)))) bad_request
  (found, m) ←
      or_raise (← gets (λ s. user_payment_method user method_id s.payment_methods)) bad_request
  raise_if (not m.is_verified) bad_request
  balance ← on_books (get_balance user)
  raise_if (ltb_ℤ balance.available (pos amount)) bad_request
  daily ← get_daily_withdrawals user
  limit ← gets (λ s. s.settings.withdrawal_daily_limit)
  raise_if (ltb_ℤ (pos limit) (daily +ℤ pos amount)) bad_request
  id ← fresh_id
  request_put id (record {
    user_id = user;
    payment_method_id = method_id;
    amount = amount;
    status = WithdrawalStatus.requested;
  })
  on_books (withdraw user (pos amount) id)
  pure id

abbrev get_or_throw : ℕ → Exec Db WithdrawalRequest
get_or_throw id = do or_raise (← gets (λ s. lookup id s.withdrawals)) not_found

abbrev pub is_requested : WithdrawalStatus → Bool
is_requested WithdrawalStatus.requested = true
is_requested _ = false

abbrev pub is_approved_request : WithdrawalStatus → Bool
is_approved_request WithdrawalStatus.approved = true
is_approved_request _ = false

unfoldable pub approve : ℕ → Exec Db ⊤
approve id = do
  r ← get_or_throw id
  raise_if (not (is_requested r.status)) bad_request
  request_put id (record r { status = WithdrawalStatus.approved })

-- The funds come back first, and then the request is written.
unfoldable pub reject : ℕ → Exec Db ⊤
reject id = do
  r ← get_or_throw id
  raise_if (not (is_requested r.status) && not (is_approved_request r.status)) bad_request
  on_books (refund_withdrawal r.user_id (pos r.amount) id)
  request_put id (record r { status = WithdrawalStatus.rejected })

-- The payout is the administrator's; `ManualPayoutProvider` reports success and moves nothing.
unfoldable pub mark_paid : ℕ → Exec Db ⊤
mark_paid id = do
  r ← get_or_throw id
  raise_if (not (is_approved_request r.status)) bad_request
  request_put id (record r { status = WithdrawalStatus.paid })
