-- ===== src/Market/Shipments.antt =====
-- src/api/src/modules/shipments/shipments.service.ts.
pub mod Laws
use iron_loot.Common.{
  ℕ, zero, suc, ◌+◌, ◌-◌, ◌*◌, ◌/◌, ◌%◌, ◌≤◌, ◌<◌, ◌≡◌, refl, sym, ap, ◌∙◌, ◌≢◌, ◌⊎◌, inl, inr,
  Bool, true, false, ◌&&◌, ◌||◌, not, Option, none, some, List, [], ◌∷◌, ◌++◌, map, arith, ltb, leb,
  ◌==◌, if◌then◌else◌, ==_iff, Bool-cases, Option-cases, ℤ, pos, negsuc, pos_part, neg_part, sub_ℕ,
  ◌+ℤ◌, ◌-ℤ◌, ◌≤ℤ◌, ◌<ℤ◌, ltb_ℤ, leb_ℤ, min_ℤ, max_ℤ, +ℤ_parts, -ℤ_parts, eq_of_parts, int_laws,
  All, length, select, find_first,
}
use iron_loot.Exec.{
  Error, Result, ok, err, ⊤, Exec, pure, raise, gets, or_raise, settle, transaction, recover, catch,
  raise_if, modify, continue, ◌>>=◌, ◌>>◌, attempt, not_found, bad_request, forbidden, validation,
  insufficient_balance, auction_not_found, auction_not_active, bid_too_low, bid_on_own_auction,
  order_not_found, user_not_found, unique_violation, record_missing,
}
use iron_loot.Table.{Table, lookup, insert, lookup-insert, lookup-insert_self, lookup-insert_ne}
use iron_loot.Core.Order.{OrderStatus, can_transition, same_status}
use iron_loot.Market.Rows.{Order, Shipment, ShipmentStatus, Db, now, fresh_id, order_update}

-- Which state of the order a state of the shipment implies, if any.
abbrev pub estado_pedido_por_envio : ShipmentStatus → Option OrderStatus
estado_pedido_por_envio ShipmentStatus.pending = none
estado_pedido_por_envio ShipmentStatus.shipped = some OrderStatus.shipped
estado_pedido_por_envio ShipmentStatus.delivered = some OrderStatus.delivered
estado_pedido_por_envio ShipmentStatus.returned = none

-- Delivery is the buyer's to declare; all else falls to the seller.
abbrev pub is_declared_by_buyer : ShipmentStatus → Bool
is_declared_by_buyer ShipmentStatus.pending = false
is_declared_by_buyer ShipmentStatus.shipped = false
is_declared_by_buyer ShipmentStatus.delivered = true
is_declared_by_buyer ShipmentStatus.returned = false

abbrev pub shipment_of_order : ℕ → Table Shipment → Option (ℕ × Shipment)
shipment_of_order order_id t = find_first (λ row. row.1.order_id == order_id) t

abbrev shipment_put : ℕ → Shipment → Exec Db ⊤
shipment_put k x = modify (λ s. record s { shipments = insert k x s.shipments })

-- The guard and the unique index refuse a second shipment alike.
unfoldable pub create : ℕ → ℕ → Exec Db ℕ
create user order_id = do
  o ← or_raise (← gets (λ s. lookup order_id s.orders)) not_found
  raise_if (not (o.seller_id == user)) forbidden
  raise_if (not (same_status o.status OrderStatus.paid)) bad_request
  existing ← gets (λ s. shipment_of_order order_id s.shipments)
  raise_if (elim existing [ none ↦ false | some row ↦ true ]) bad_request
  id ← fresh_id
  shipment_put id (record {
    order_id = order_id;
    status = ShipmentStatus.pending;
    shipped_at = none;
    delivered_at = none;
  })
  pure id

unfoldable pub find_one : ℕ → ℕ → Exec Db Shipment
find_one user id = do
  x ← or_raise (← gets (λ s. lookup id s.shipments)) not_found
  o ← or_raise (← gets (λ s. lookup x.order_id s.orders)) record_missing
  raise_if (not (o.buyer_id == user) && not (o.seller_id == user)) forbidden
  pure x

-- A date that is set once.
abbrev first_time : Option ℕ → ℕ → Option ℕ
first_time none at = some at
first_time (some t) at = some t

abbrev pub stamped : Shipment → ShipmentStatus → ℕ → Shipment
stamped x ShipmentStatus.pending at = record x { status = ShipmentStatus.pending }
stamped x ShipmentStatus.shipped at = record x {
  status = ShipmentStatus.shipped;
  shipped_at = first_time x.shipped_at at;
}
stamped x ShipmentStatus.delivered at = record x {
  status = ShipmentStatus.delivered;
  delivered_at = first_time x.delivered_at at;
}
stamped x ShipmentStatus.returned at = record x { status = ShipmentStatus.returned }

abbrev check_order : Order → Option OrderStatus → Exec Db ⊤
check_order o none = pure tt
check_order o (some status) = raise_if (not (can_transition o.status status)) bad_request

abbrev move_order : ℕ → Order → Option OrderStatus → Exec Db ⊤
move_order order_id o none = pure tt
move_order order_id o (some status) = order_update order_id (record o { status = status })

unfoldable pub update_status : ℕ → ℕ → ShipmentStatus → Exec Db Shipment
update_status user id status = do
  x ← or_raise (← gets (λ s. lookup id s.shipments)) not_found
  o ← or_raise (← gets (λ s. lookup x.order_id s.orders)) record_missing
  raise_if (is_declared_by_buyer status && not (o.buyer_id == user)) forbidden
  raise_if (not (is_declared_by_buyer status) && not (o.seller_id == user)) forbidden
  check_order o (estado_pedido_por_envio status)
  at ← now
  transaction do
    shipment_put id (stamped x status at)
    move_order x.order_id o (estado_pedido_por_envio status)
    pure (stamped x status at)
