-- ===== src/Market/Commissions.antt =====
-- src/api/src/modules/commissions/commissions.service.ts. A rate is in hundredths of a percent.
pub mod Laws
use iron_loot.Common.{
  ℕ, zero, suc, ◌+◌, ◌-◌, ◌*◌, ◌/◌, ◌%◌, ◌≤◌, ◌<◌, ◌≡◌, refl, sym, ap, ◌∙◌, ◌≢◌, ◌⊎◌, inl, inr,
  Bool, true, false, ◌&&◌, ◌||◌, not, Option, none, some, List, [], ◌∷◌, ◌++◌, map, arith, ltb, leb,
  ◌==◌, if◌then◌else◌, ==_iff, Bool-cases, Option-cases, ℤ, pos, negsuc, pos_part, neg_part, sub_ℕ,
  ◌+ℤ◌, ◌-ℤ◌, ◌≤ℤ◌, ◌<ℤ◌, ltb_ℤ, leb_ℤ, min_ℤ, max_ℤ, +ℤ_parts, -ℤ_parts, eq_of_parts, int_laws,
  All, length, select, find_first,
}
use iron_loot.Exec.{
  Error, Result, ok, err, ⊤, Exec, pure, raise, gets, or_raise, settle, transaction, recover, catch,
  raise_if, modify, continue, ◌>>=◌, ◌>>◌, attempt, not_found, bad_request, forbidden, validation,
  insufficient_balance, auction_not_found, auction_not_active, bid_too_low, bid_on_own_auction,
  order_not_found, user_not_found, unique_violation, record_missing,
}
use iron_loot.Table.{
  Table, lookup, insert, remove, lookup-insert, lookup-insert_self, lookup-insert_ne,
}
use iron_loot.Market.Rows.{
  CommissionConfig, CommissionRecord, CommissionType, CommissionStatus, Db, Order, fresh_id,
}

abbrev pub is_for_seller : ℕ → CommissionConfig → Bool
is_for_seller seller c = elim c.type [
  | CommissionType.seller k ↦ k == seller
  | CommissionType.global ↦ false
  | CommissionType.category ↦ false
]

abbrev pub is_global : CommissionConfig → Bool
is_global c = elim c.type [
  | CommissionType.global ↦ true
  | CommissionType.category ↦ false
  | CommissionType.seller k ↦ false
]

-- `findFirst` over the configured rates, with the identifier of the row.
abbrev pub find_config :
    (CommissionConfig → Bool) → Table CommissionConfig → Option (ℕ × CommissionConfig)
find_config p t = find_first (λ row. p row.1) t

abbrev pub rate_or : Option (ℕ × CommissionConfig) → ℕ → ℕ
rate_or none fallback = fallback
rate_or (some (k, c)) fallback = c.rate

-- The seller's own rate, else the global one, else 10 %.
unfoldable pub resolve_rate : ℕ → Table CommissionConfig → ℕ
resolve_rate seller t =
    rate_or (find_config (is_for_seller seller) t) (rate_or (find_config is_global t) 1000)

-- `amount * rate / 100` to two decimals, a half rounded up.
abbrev pub commission_of : ℕ → ℕ → ℕ
commission_of total rate = (total * rate + 5000) / 10000

abbrev pub create_record : ℕ → Order → ℕ → Exec Db ⊤
create_record order_id order rate = modify (λ s. record s {
  commission_records =
      insert order_id
        (record {
          seller_id = order.seller_id;
          amount = commission_of order.total_amount rate;
          rate = rate;
          status = CommissionStatus.pending;
        })
        s.commission_records;
})

abbrev pub has_row {ℓ} : {A : Type ℓ} → Option A → Bool
has_row none = false
has_row (some a) = true

unfoldable pub record_missing_order : ℕ → ℕ → Exec Db ⊤
record_missing_order order_id rate = do
  order ← or_raise (← gets (λ s. lookup order_id s.orders)) not_found
  create_record order_id order rate

-- A second call for the same order writes nothing.
unfoldable pub record_for_order : ℕ → ℕ → Exec Db ⊤
unfolding record_missing_order
record_for_order order_id rate = do
  existing ← gets (λ s. has_row (lookup order_id s.commission_records))
  if existing then pure tt else record_missing_order order_id rate

abbrev calculate : ℕ → Option Order → Exec Db ⊤
calculate order_id none = pure tt
calculate order_id (some order) = do
  rate ← gets (λ s. resolve_rate order.seller_id s.commission_configs)
  create_record order_id order rate

unfoldable pub calculate_for_order : ℕ → Exec Db ⊤
calculate_for_order order_id = do
  existing ← gets (λ s. has_row (lookup order_id s.commission_records))
  order ← gets (λ s. lookup order_id s.orders)
  if existing then pure tt else calculate order_id order

abbrev pub put_config : ℕ → CommissionConfig → Exec Db ⊤
put_config k c = modify (λ s. record s { commission_configs = insert k c s.commission_configs })

abbrev pub upsert : CommissionType → ℕ → Option (ℕ × CommissionConfig) → Exec Db ⊤
upsert kind rate (some (k, c)) = put_config k (record c { rate = rate })
upsert kind rate none = do k ← fresh_id; put_config k (record { type = kind; rate = rate })

unfoldable pub upsert_global_rate : ℕ → Exec Db ⊤
upsert_global_rate rate = do
  upsert CommissionType.global rate (← gets (λ s. find_config is_global s.commission_configs))

unfoldable pub upsert_seller_rate : ℕ → ℕ → Exec Db ⊤
upsert_seller_rate seller rate = do
  upsert (CommissionType.seller seller) rate
      (← gets (λ s. find_config (is_for_seller seller) s.commission_configs))

unfoldable pub delete_config : ℕ → Exec Db ⊤
delete_config id = do
  or_raise (← gets (λ s. lookup id s.commission_configs)) record_missing
  modify (λ s. record s { commission_configs = remove id s.commission_configs })

unfoldable pub mark_collected : ℕ → Exec Db ⊤
mark_collected order_id = do
  r ← or_raise (← gets (λ s. lookup order_id s.commission_records)) record_missing
  modify (λ s. record s {
    commission_records =
        insert order_id (record r { status = CommissionStatus.collected }) s.commission_records;
  })
