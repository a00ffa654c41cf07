-- ===== src/Market/Refunds.antt =====
-- src/api/src/modules/refunds/refunds.service.ts.
pub mod Cases
pub mod Laws
use iron_loot.Common.{
  ℕ, zero, suc, ◌+◌, ◌-◌, ◌*◌, ◌/◌, ◌%◌, ◌≤◌, ◌<◌, ◌≡◌, refl, sym, ap, ◌∙◌, ◌≢◌, ◌⊎◌, inl, inr,
  Bool, true, false, ◌&&◌, ◌||◌, not, Option, none, some, List, [], ◌∷◌, ◌++◌, map, arith, ltb, leb,
  ◌==◌, if◌then◌else◌, ==_iff, Bool-cases, Option-cases, ℤ, pos, negsuc, pos_part, neg_part, sub_ℕ,
  ◌+ℤ◌, ◌-ℤ◌, ◌≤ℤ◌, ◌<ℤ◌, ltb_ℤ, leb_ℤ, min_ℤ, max_ℤ, +ℤ_parts, -ℤ_parts, eq_of_parts, int_laws,
  All, length, select, find_first,
}
use iron_loot.Exec.{
  Error, Result, ok, err, ⊤, Exec, pure, raise, gets, or_raise, settle, transaction, recover, catch,
  raise_if, modify, continue, ◌>>=◌, ◌>>◌, attempt, not_found, bad_request, forbidden, validation,
  insufficient_balance, auction_not_found, auction_not_active, bid_too_low, bid_on_own_auction,
  order_not_found, user_not_found, unique_violation, record_missing,
}
use iron_loot.Table.{Table, lookup, insert, lookup-insert, lookup-insert_self, lookup-insert_ne}
use iron_loot.Core.Order.{OrderStatus, can_transition}
use iron_loot.Wallet.Rows.{asegurar_monedero}
use iron_loot.Wallet.Sales.{reversar_run}
use iron_loot.Market.Rows.{
  Order, RefundRequest, RefundStatus, Db, on_books, now, fresh_id, order_update,
}

abbrev pub refund_of_order : ℕ → Table RefundRequest → Option (ℕ × RefundRequest)
refund_of_order order_id t = find_first (λ row. row.1.order_id == order_id) t

-- The transaction of `createRefund`.
unfoldable pub refund_run : ℕ → Order → ℕ → ℕ → Exec Db ℕ
refund_run order_id o amount initiated_by = do
  id ← fresh_id
  modify (λ s. record s {
    refunds =
        insert id
          (record {
            order_id = order_id;
            amount = amount;
            status = RefundStatus.pending_refund;
            initiated_by = initiated_by;
            resolved_at = none;
          })
          s.refunds;
  })
  order_update order_id (record o { status = OrderStatus.refunded })
  on_books (reversar_run o.buyer_id o.seller_id (pos amount) order_id)
  pure id

-- `reversarVenta` makes sure of both wallets on a connection of its own, so they stay if the
-- transaction is rolled back.
unfoldable pub create_refund : ℕ → ℕ → ℕ → Exec Db ℕ
create_refund order_id amount initiated_by = do
  o ← or_raise (← gets (λ s. lookup order_id s.orders)) not_found
  existing ← gets (λ s. refund_of_order order_id s.refunds)
  raise_if (elim existing [ none ↦ false | some row ↦ true ]) bad_request
  raise_if (not (can_transition o.status OrderStatus.refunded)) bad_request
  raise_if ((amount == 0) || ltb o.total_amount amount) bad_request
  on_books (asegurar_monedero o.buyer_id true)
  on_books (asegurar_monedero o.seller_id true)
  transaction (refund_run order_id o amount initiated_by)

abbrev is_final : RefundStatus → Bool
is_final RefundStatus.pending_refund = false
is_final RefundStatus.processing = false
is_final RefundStatus.completed = true
is_final RefundStatus.failed = true

unfoldable pub update_status : ℕ → RefundStatus → Exec Db ⊤
update_status id status = do
  r ← or_raise (← gets (λ s. lookup id s.refunds)) record_missing
  at ← now
  let resolved = if is_final status then some at else r.resolved_at
  modify (λ s. record s {
    refunds = insert id (record r { status = status; resolved_at = resolved }) s.refunds;
  })
