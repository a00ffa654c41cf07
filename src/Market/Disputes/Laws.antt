-- ===== src/Market/Disputes/Laws.antt =====
-- Who may open a dispute.
use iron_loot.Common.{
  false, ℕ, ◌+◌, ◌*◌, ◌≤◌, ◌≡◌, ◌⊎◌, inl, inr, true, none, some, arith, Bool-cases, Option-cases,
}
use iron_loot.Exec.{Error, ok, err, bad_request, forbidden}
use iron_loot.Table.{lookup, insert}
use iron_loot.Core.Order.{OrderStatus}
use iron_loot.Core.Dispute.{DisputeStatus, can_open_dispute}
use iron_loot.Market.Rows.{Order, Shipment, Db}
use iron_loot.Market.Shipments.{shipment_of_order}
use iron_loot.Market.Disputes.{
  create, dispute_of_order, is_participant, reference_date, may_be_disputed,
}

abbrev pub fourteen_days : ℕ
fourteen_days = 14 * 24 * 60 * 60 * 1000

-- The order's shipment was delivered at this time.
pub record DeliveredAt (k t : ℕ) (s : Db) : Type 0 where
  pub id : ℕ
  pub shipment : Shipment
  pub found : shipment_of_order k s.shipments ≡ some (id, shipment)
  pub delivered : shipment.delivered_at ≡ some t

-- What a user must meet to open a dispute over the order `k`.
pub record MayDispute (user k : ℕ) (o : Order) (s : Db) : Type 0 where
  pub participant : (o.buyer_id ≡ user) ⊎ (o.seller_id ≡ user)
  pub first : dispute_of_order k s.disputes ≡ none
  pub status :
      (o.status ≡ OrderStatus.delivered)
      ⊎ (o.status ≡ OrderStatus.paid)
      ⊎ (o.status ≡ OrderStatus.shipped)
  pub in_time :
      ((t : ℕ) × DeliveredAt k t s × (s.books.now ≤ t + fourteen_days))
      ⊎ (((t : ℕ) → DeliveredAt k t s → ⊥) × (s.books.now ≤ o.updated_at + fourteen_days))

abbrev pub opened : ℕ → ℕ → Db → Db
opened user k s = record s {
  disputes =
      insert s.next_id
        (record { order_id = k; creator_id = user; status = DisputeStatus.open_case }) s.disputes;
  next_id = s.next_id + 1;
}

participant_of :
    (user : ℕ) (o : Order)
    → is_participant user o ≡ true
    → (o.buyer_id ≡ user) ⊎ (o.seller_id ≡ user)
participant_of user o h = ground arith

status_of :
    (s : OrderStatus)
    → may_be_disputed s ≡ true
    → (s ≡ OrderStatus.delivered) ⊎ (s ≡ OrderStatus.paid) ⊎ (s ≡ OrderStatus.shipped)
status_of s h = ground arith

in_time_of :
    (k : ℕ) (o : Order) (s : Db)
    → can_open_dispute (reference_date o (shipment_of_order k s.shipments)) s.books.now ≡ true
    → ((t : ℕ) × DeliveredAt k t s × (s.books.now ≤ t + fourteen_days))
      ⊎ (((t : ℕ) → DeliveredAt k t s → ⊥) × (s.books.now ≤ o.updated_at + fourteen_days))
unfolding can_open_dispute
in_time_of k o s h = elim (Option-cases (shipment_of_order k s.shipments)) [
  | inl e ↦ inr (λ t d. ground (arith, d.found), ground arith)
  | inr ((j, x), e) ↦ elim (Option-cases x.delivered_at) [
    | inl n ↦ inr (λ t d. ground (arith, d.found, d.delivered), ground arith)
    | inr (t, n) ↦ inl (t, record { id = j; shipment = x; found = e; delivered = n }, ground arith)
  ]
]

late :
    (k : ℕ) (o : Order) (s : Db)
    → can_open_dispute (reference_date o (shipment_of_order k s.shipments)) s.books.now ≡ false
    → ((t : ℕ) × DeliveredAt k t s × (s.books.now ≤ t + fourteen_days))
      ⊎ (((t : ℕ) → DeliveredAt k t s → ⊥) × (s.books.now ≤ o.updated_at + fourteen_days))
    → ⊥
unfolding can_open_dispute
late k o s h (inl (t, d, l)) = ground (arith, d.found, d.delivered)
late k o s h (inr (n, l)) = elim (Option-cases (shipment_of_order k s.shipments)) [
  | inl e ↦ ground arith
  | inr ((j, x), e) ↦ elim (Option-cases x.delivered_at) [
    | inl q ↦ ground arith
    | inr (t, q) ↦ n t (record { id = j; shipment = x; found = e; delivered = q })
  ]
]

pub create-MayDispute :
    (user k : ℕ) (o : Order) (s : Db)
    → lookup k s.orders ≡ some o
    → (MayDispute user k o s × (create user k s ≡ (ok s.next_id, opened user k s)))
      ⊎ ((e : Error) × (create user k s ≡ (err e, s)) × (MayDispute user k o s → ⊥))
unfolding create
create-MayDispute user k o s e = elim (Bool-cases (is_participant user o)) [
  | inr p ↦ inr (forbidden, ground arith, λ m. ground (arith, m.participant))
  | inl p ↦ elim (Option-cases (dispute_of_order k s.disputes)) [
    | inr (d, q) ↦ inr (bad_request, ground arith, λ m. ground (arith, m.first))
    | inl q ↦ elim (Bool-cases (may_be_disputed o.status)) [
      | inr r ↦ inr (bad_request, ground arith, λ m. ground (arith, m.status))
      | inl r ↦
          let t = reference_date o (shipment_of_order k s.shipments) in
          elim (Bool-cases (can_open_dispute t s.books.now)) [
            | inr w ↦ inr (bad_request, ground arith, λ m. late k o s w m.in_time)
            | inl w ↦ inl (
              record {
                participant = participant_of user o p;
                first = q;
                status = status_of o.status r;
                in_time = in_time_of k o s w;
              },
              ground arith,
            )
          ]
    ]
  ]
]
