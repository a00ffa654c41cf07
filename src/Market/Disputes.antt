-- ===== src/Market/Disputes.antt =====
-- src/api/src/modules/disputes/disputes.service.ts.
pub mod Laws
use iron_loot.Common.{
  ℕ, zero, suc, ◌+◌, ◌-◌, ◌*◌, ◌/◌, ◌%◌, ◌≤◌, ◌<◌, ◌≡◌, refl, sym, ap, ◌∙◌, ◌≢◌, ◌⊎◌, inl, inr,
  Bool, true, false, ◌&&◌, ◌||◌, not, Option, none, some, List, [], ◌∷◌, ◌++◌, map, arith, ltb, leb,
  ◌==◌, if◌then◌else◌, ==_iff, Bool-cases, Option-cases, ℤ, pos, negsuc, pos_part, neg_part, sub_ℕ,
  ◌+ℤ◌, ◌-ℤ◌, ◌≤ℤ◌, ◌<ℤ◌, ltb_ℤ, leb_ℤ, min_ℤ, max_ℤ, +ℤ_parts, -ℤ_parts, eq_of_parts, int_laws,
  All, length, select, find_first,
}
use iron_loot.Exec.{
  Error, Result, ok, err, ⊤, Exec, pure, raise, gets, or_raise, settle, transaction, recover, catch,
  raise_if, modify, continue, ◌>>=◌, ◌>>◌, attempt, not_found, bad_request, forbidden, validation,
  insufficient_balance, auction_not_found, auction_not_active, bid_too_low, bid_on_own_auction,
  order_not_found, user_not_found, unique_violation, record_missing,
}
use iron_loot.Table.{Table, lookup, insert, lookup-insert, lookup-insert_self, lookup-insert_ne}
use iron_loot.Core.Order.{OrderStatus, same_status}
use iron_loot.Core.Dispute.{DisputeStatus, can_open_dispute}
use iron_loot.Market.Rows.{Order, Shipment, Dispute, Db, now, fresh_id}
use iron_loot.Market.Shipments.{shipment_of_order}

abbrev pub dispute_of_order : ℕ → Table Dispute → Option (ℕ × Dispute)
dispute_of_order order_id t = find_first (λ row. row.1.order_id == order_id) t

abbrev pub is_participant : ℕ → Order → Bool
is_participant user o = (o.buyer_id == user) || (o.seller_id == user)

-- `order.shipment?.deliveredAt ?? order.updatedAt`
abbrev pub reference_date : Order → Option (ℕ × Shipment) → ℕ
reference_date o none = o.updated_at
reference_date o (some (k, x)) = elim x.delivered_at [ none ↦ o.updated_at | some t ↦ t ]

abbrev pub may_be_disputed : OrderStatus → Bool
may_be_disputed s =
    same_status s OrderStatus.delivered
    || same_status s OrderStatus.paid
    || same_status s OrderStatus.shipped

unfoldable pub create : ℕ → ℕ → Exec Db ℕ
create user order_id = do
  o ← or_raise (← gets (λ s. lookup order_id s.orders)) not_found
  raise_if (not (is_participant user o)) forbidden
  existing ← gets (λ s. dispute_of_order order_id s.disputes)
  raise_if (elim existing [ none ↦ false | some row ↦ true ]) bad_request
  raise_if (not (may_be_disputed o.status)) bad_request
  shipment ← gets (λ s. shipment_of_order order_id s.shipments)
  at ← now
  raise_if (not (can_open_dispute (reference_date o shipment) at)) bad_request
  id ← fresh_id
  modify (λ s. record s {
    disputes =
        insert id
          (record { order_id = order_id; creator_id = user; status = DisputeStatus.open_case })
          s.disputes;
  })
  pure id

unfoldable pub find_one : ℕ → ℕ → Exec Db Dispute
find_one user id = do
  d ← or_raise (← gets (λ s. lookup id s.disputes)) not_found
  o ← or_raise (← gets (λ s. lookup d.order_id s.orders)) record_missing
  raise_if (not ((d.creator_id == user) || is_participant user o)) forbidden
  pure d
