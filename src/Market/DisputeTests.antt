-- ===== src/Market/DisputeTests.antt =====
-- The theorems on resolved disputes at concrete rows.
use iron_loot.Common.{arith, ◌≡◌, refl, ◌⊎◌, [], ◌∷◌}
use iron_loot.Exec.{Error, ok, err}
use iron_loot.Core.Order.{OrderStatus}
use iron_loot.Core.Dispute.{DisputeStatus}
use iron_loot.Market.Samples.{bidder, merchant, sale, sale_db}
use iron_loot.Market.Rows.{Dispute, Db}
use iron_loot.Market.Resolutions.{resolve_dispute_favor_buyer}
use iron_loot.Market.Resolutions.Laws.{Repaid, resolve_dispute_favor_buyer_lem}

abbrev complaint : DisputeStatus → Dispute
complaint status = record { order_id = 50; creator_id = 1; status = status }

-- 20 days after the sale, with a dispute over it.
abbrev disputed : DisputeStatus → Db
disputed status = record (sale_db OrderStatus.delivered) {
  books = record (sale_db OrderStatus.delivered).books { now = 1728000000 };
  disputes = (70, complaint status) ∷ [];
}

abbrev open_db : Db
open_db = disputed DisputeStatus.open_case

resolve_dispute_favor_buyer_lem_example :
    let (r, s') = resolve_dispute_favor_buyer 70 9 open_db in
    ((r ≡ ok 100)
      × Repaid 70 9
          (complaint DisputeStatus.open_case)
          (sale OrderStatus.delivered)
          bidder
          merchant
          open_db
          s')
    ⊎ ((e : Error) × ((r ≡ err e)
          × (s'.disputes ≡ open_db.disputes)
          × (s'.orders ≡ open_db.orders)))
resolve_dispute_favor_buyer_lem_example =
    resolve_dispute_favor_buyer_lem 70 9 (complaint DisputeStatus.open_case)
      (sale OrderStatus.delivered) bidder merchant open_db refl refl (omega arith) refl refl
