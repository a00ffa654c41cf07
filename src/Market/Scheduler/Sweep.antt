-- ===== src/Market/Scheduler/Sweep.antt =====
-- The sweep over matured settlements, as a whole.
use iron_loot.Common.{ℕ, ◌≡◌, refl, ◌∙◌, inl, inr, [], ◌∷◌, Option-cases, pos, int_laws}
use iron_loot.Exec.{outcome_cases}
use iron_loot.Table.{Table, lookup}
use mathlib.Core.Path.{subst}
use iron_loot.Wallet.Rows.{Books}
use iron_loot.Wallet.Posting.{total}
use iron_loot.Wallet.Effects.{IsSound, Moves}
use iron_loot.Wallet.SaleEffects.{release_settlement_run-Moves}
use iron_loot.Wallet.Sales.{release_settlement_run}
use iron_loot.Market.Rows.{Order, Db}
use iron_loot.Market.Scheduler.{release_order, release_rows, release_matured_settlements, matured}

-- The books stay sound, with as much money in them.
abbrev Keeps : Books → Books → Type 0
Keeps s s' = IsSound s' × (total s'.wallets ≡ total s.wallets)

release_order-Keeps :
    (k : ℕ) (o : Order) (s : Db) → IsSound s.books → Keeps s.books (release_order k o s).1.books
unfolding release_order
release_order-Keeps k o s v = elim (Option-cases o.seller_net) [
  | inl n ↦ rw n (v, refl)
  | inr (net, n) ↦ elim (outcome_cases (release_settlement_run o.seller_id net k s.books)) [
    | inr (e, b, h) ↦ rw (n, h) (v, refl)
    | inl (_, b, h) ↦ elim (Option-cases (lookup k s.orders)) [
      | inl f ↦ rw (n, h, f) (v, refl)
      | inr (o', f) ↦
          let m =
            subst (Moves s.books (pos 0)) h
              (release_settlement_run-Moves o.seller_id net k s.books v) in
          rw (n, h, f) (m.0, grind (int_laws, m.1))
    ]
  ]
]

release_rows-Keeps :
    (t : Table Order) (s : Db) → IsSound s.books → Keeps s.books (release_rows t s).1.books
release_rows-Keeps [] s v = (v, refl)
release_rows-Keeps ((k, o) ∷ t) s v =
    let a = release_order-Keeps k o s v in
    let b = release_rows-Keeps t (release_order k o s).1 a.0 in (b.0, b.1 ∙ a.1)

-- A sweep over the matured settlements keeps the books sound and moves no money in or out, whichever
-- of its releases fail.
pub release_matured-IsSound :
    (s : Db)
    → IsSound s.books
    → let s' = (release_matured_settlements s).1 in
      IsSound s'.books × (total s'.books.wallets ≡ total s.books.wallets)
unfolding release_matured_settlements
release_matured-IsSound s v = release_rows-Keeps (matured s s.orders) s v
