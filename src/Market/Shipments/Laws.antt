-- ===== src/Market/Shipments/Laws.antt =====
-- Who may move a shipment, and what moves with it.
use iron_loot.Common.{
  ℕ, ◌≡◌, refl, ◌≢◌, ◌⊎◌, inl, inr, true, none, some, arith, ◌==◌, ==_iff, Bool-cases,
}
use iron_loot.Exec.{Error, ok, err, bad_request, forbidden}
use iron_loot.Table.{Table, lookup, insert}
use iron_loot.Core.Order.{OrderStatus, can_transition}
use iron_loot.Market.Rows.{Order, Shipment, ShipmentStatus, Db}
use iron_loot.Market.Shipments.{update_status, estado_pedido_por_envio, stamped}

-- What a call of `updateStatus` that returns has met.
pub record MayDeclare (user : ℕ) (status : ShipmentStatus) (o : Order) : Type 0 where
  pub buyer : status ≡ ShipmentStatus.delivered → o.buyer_id ≡ user
  pub seller : status ≢ ShipmentStatus.delivered → o.seller_id ≡ user
  pub may_ship :
      status ≡ ShipmentStatus.shipped → can_transition o.status OrderStatus.shipped ≡ true
  pub may_deliver :
      status ≡ ShipmentStatus.delivered → can_transition o.status OrderStatus.delivered ≡ true

-- The orders after the shipment's order has followed.
abbrev pub followed : ℕ → Order → ShipmentStatus → Db → Table Order
followed k o status s = elim (estado_pedido_por_envio status) [
  | none ↦ s.orders
  | some t ↦ insert k (record o { status = t; updated_at = s.books.now }) s.orders
]

by_seller :
    (user : ℕ) (status : ShipmentStatus) (o : Order)
    → (o.seller_id == user) ≡ true
    → status ≢ ShipmentStatus.delivered
    → (status ≡ ShipmentStatus.shipped → can_transition o.status OrderStatus.shipped ≡ true)
    → MayDeclare user status o
by_seller user status o c not_delivered may_ship = record {
  buyer = λ h. absurd (not_delivered h);
  seller = λ h. (==_iff o.seller_id user).0 c;
  may_ship = may_ship;
  may_deliver = λ h. absurd (not_delivered h);
}

-- A shipment of an order moves only by the party that declares its new status (the buyer confirms
-- the delivery, the seller all else), and only if the order may follow by the state machine; then
-- the shipment, with its dates, and the order are written together. Any other call throws and
-- writes nothing.
pub update_status-MayDeclare :
    (user k : ℕ) (status : ShipmentStatus) (x : Shipment) (o : Order) (s : Db)
    → lookup k s.shipments ≡ some x
    → lookup x.order_id s.orders ≡ some o
    → (MayDeclare user status o
        × (update_status user k status s ≡ (
          ok (stamped x status s.books.now),
          record s {
            shipments = insert k (stamped x status s.books.now) s.shipments;
            orders = followed x.order_id o status s;
          },
        )))
      ⊎ ((e : Error) × (update_status user k status s ≡ (err e, s)))
unfolding update_status
update_status-MayDeclare user k ShipmentStatus.pending x o s e f =
    elim (Bool-cases (o.seller_id == user)) [
      | inr c ↦ inr (forbidden, ground arith)
      | inl c ↦ inl (
        by_seller user ShipmentStatus.pending o c (ground arith) (λ h. absurd (ground arith)),
        ground arith,
      )
    ]
update_status-MayDeclare user k ShipmentStatus.shipped x o s e f =
    elim (Bool-cases (o.seller_id == user)) [
      | inr c ↦ inr (forbidden, ground arith)
      | inl c ↦ elim (Bool-cases (can_transition o.status OrderStatus.shipped)) [
        | inr a ↦ inr (bad_request, ground arith)
        | inl a ↦
            inl (by_seller user ShipmentStatus.shipped o c (ground arith) (λ h. a), ground arith)
      ]
    ]
update_status-MayDeclare user k ShipmentStatus.delivered x o s e f =
    elim (Bool-cases (o.buyer_id == user)) [
      | inr c ↦ inr (forbidden, ground arith)
      | inl c ↦ elim (Bool-cases (can_transition o.status OrderStatus.delivered)) [
        | inr a ↦ inr (bad_request, ground arith)
        | inl a ↦ inl (
          record {
            buyer = λ h. (==_iff o.buyer_id user).0 c;
            seller = λ h. absurd (h refl);
            may_ship = λ h. absurd (ground arith);
            may_deliver = λ h. a;
          },
          ground arith,
        )
      ]
    ]
update_status-MayDeclare user k ShipmentStatus.returned x o s e f =
    elim (Bool-cases (o.seller_id == user)) [
      | inr c ↦ inr (forbidden, ground arith)
      | inl c ↦ inl (
        by_seller user ShipmentStatus.returned o c (ground arith) (λ h. absurd (ground arith)),
        ground arith,
      )
    ]
