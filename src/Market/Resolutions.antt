-- ===== src/Market/Resolutions.antt =====
-- src/api/src/modules/admin/admin.service.ts: how the administration ends a dispute.
pub mod Laws
use iron_loot.Common.{
  ℕ, zero, suc, ◌+◌, ◌-◌, ◌*◌, ◌/◌, ◌%◌, ◌≤◌, ◌<◌, ◌≡◌, refl, sym, ap, ◌∙◌, ◌≢◌, ◌⊎◌, inl, inr,
  Bool, true, false, ◌&&◌, ◌||◌, not, Option, none, some, List, [], ◌∷◌, ◌++◌, map, arith, ltb, leb,
  ◌==◌, if◌then◌else◌, ==_iff, Bool-cases, Option-cases, ℤ, pos, negsuc, pos_part, neg_part, sub_ℕ,
  ◌+ℤ◌, ◌-ℤ◌, ◌≤ℤ◌, ◌<ℤ◌, ltb_ℤ, leb_ℤ, min_ℤ, max_ℤ, +ℤ_parts, -ℤ_parts, eq_of_parts, int_laws,
  All, length, select, find_first,
}
use iron_loot.Exec.{
  Error, Result, ok, err, ⊤, Exec, pure, raise, gets, or_raise, settle, transaction, recover, catch,
  raise_if, modify, continue, ◌>>=◌, ◌>>◌, attempt, not_found, bad_request, forbidden, validation,
  insufficient_balance, auction_not_found, auction_not_active, bid_too_low, bid_on_own_auction,
  order_not_found, user_not_found, unique_violation, record_missing, outcome_cases,
}
use iron_loot.Table.{
  Table, lookup, insert, lookup-insert, lookup-insert_self, lookup-insert_ne, find_first-insert,
}
use iron_loot.Core.Dispute.{DisputeStatus}
use iron_loot.Market.Rows.{Dispute, Db}
use iron_loot.Market.Refunds.{create_refund}

-- `prisma.dispute.update({ where: { id }, data: { status } })`
abbrev pub set_dispute : ℕ → DisputeStatus → Exec Db ⊤
set_dispute id status = do
  d ← or_raise (← gets (λ s. lookup id s.disputes)) record_missing
  modify (λ s. record s { disputes = insert id (record d { status = status }) s.disputes })

-- The whole price goes back to the buyer first; only then is the dispute resolved.
unfoldable pub resolve_dispute_favor_buyer : ℕ → ℕ → Exec Db ℕ
resolve_dispute_favor_buyer id admin = do
  d ← or_raise (← gets (λ s. lookup id s.disputes)) not_found
  o ← or_raise (← gets (λ s. lookup d.order_id s.orders)) record_missing
  refund ← create_refund d.order_id o.total_amount admin
  set_dispute id DisputeStatus.resolved
  pure refund

unfoldable pub resolve_dispute_favor_seller : ℕ → Exec Db ⊤
resolve_dispute_favor_seller id = set_dispute id DisputeStatus.resolved

unfoldable pub request_dispute_evidence : ℕ → Exec Db ⊤
request_dispute_evidence id = set_dispute id DisputeStatus.in_mediation
