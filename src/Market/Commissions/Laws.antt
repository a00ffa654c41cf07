-- ===== src/Market/Commissions/Laws.antt =====
-- What the commissions' methods guarantee.
use iron_loot.Common.{
  ℕ, ◌≡◌, ◌⊎◌, inl, inr, Bool, true, none, some, [], ◌∷◌, arith, Bool-cases, Option-cases,
}
use iron_loot.Exec.{ok}
use iron_loot.Table.{Table, lookup, insert, lookup-insert_self, find_first-insert}
use iron_loot.Market.Rows.{
  Order, CommissionConfig, CommissionRecord, CommissionStatus, CommissionType, Db,
}
use iron_loot.Market.Commissions.{
  is_for_seller, find_config, resolve_rate, commission_of, record_for_order, record_missing_order,
  calculate_for_order, upsert_seller_rate,
}

abbrev commission_row : Order → ℕ → CommissionRecord
commission_row o rate = record {
  seller_id = o.seller_id;
  amount = commission_of o.total_amount rate;
  rate = rate;
  status = CommissionStatus.pending;
}

-- Once the commission of an order is on record, recording it again, by either way, returns and
-- writes nothing.
pub record_for_order_once :
    (k rate rate' : ℕ) (s : Db)
    → (record_for_order k rate s).0 ≡ ok tt
    → let s' = (record_for_order k rate s).1 in
      (record_for_order k rate' s' ≡ (ok tt, s')) × (calculate_for_order k s' ≡ (ok tt, s'))
unfolding record_for_order record_missing_order calculate_for_order
record_for_order_once k rate rate' s h = elim (Option-cases (lookup k s.commission_records)) [
  | inr (r, e) ↦ ground arith
  | inl e ↦ elim (Option-cases (lookup k s.orders)) [
    | inl f ↦ absurd (ground arith)
    | inr (o, f) ↦ ground (arith, lookup-insert_self k (commission_row o rate) s.commission_records)
  ]
]

found_is :
    (p : CommissionConfig → Bool) (k : ℕ) (c : CommissionConfig) (t : Table CommissionConfig)
    → find_config p t ≡ some (k, c)
    → p c ≡ true
found_is p k c [] e = absurd (cc e)
found_is p k c ((j, d) ∷ t) e = elim (Bool-cases (p d)) [
  | inl q ↦ ground arith
  | inr q ↦ found_is p k c t (ground arith)
]

own :
    (seller k : ℕ) (c : CommissionConfig) (t : Table CommissionConfig)
    → (find_config (is_for_seller seller) t ≡ none)
      ⊎ ((w : CommissionConfig) × (find_config (is_for_seller seller) t ≡ some (k, w)))
    → is_for_seller seller c ≡ true
    → find_config (is_for_seller seller) (insert k c t) ≡ some (k, c)
own seller k c t p h = find_first-insert (λ row. is_for_seller seller row.1) k c t h p

-- A seller's rate, once set, is the one that the seller's sales get, whether there was one before
-- or not.
pub resolve_rate-upsert_seller_rate :
    (seller rate : ℕ) (s : Db)
    → resolve_rate seller (upsert_seller_rate seller rate s).1.commission_configs ≡ rate
unfolding resolve_rate upsert_seller_rate
resolve_rate-upsert_seller_rate seller rate s =
    elim (Option-cases (find_config (is_for_seller seller) s.commission_configs)) [
      | inl e ↦
          let c : CommissionConfig = record { type = CommissionType.seller seller; rate = rate } in
          ground (arith, own seller s.next_id c s.commission_configs (inl e) (ground arith))
      | inr ((k, c), e) ↦
          let own_rate = found_is (is_for_seller seller) k c s.commission_configs e in
          ground (
            arith,
            own seller k (record c { rate = rate }) s.commission_configs (inr (c, e)) own_rate,
          )
    ]
