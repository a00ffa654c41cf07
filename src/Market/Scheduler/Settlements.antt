-- ===== src/Market/Scheduler/Settlements.antt =====
-- The release of the settlement of one order.
use iron_loot.Common.{
  ℕ, ◌≡◌, refl, sym, ◌∙◌, inl, inr, true, false, none, some, arith, ◌==◌, Bool-cases, Option-cases,
  ℤ, ◌+ℤ◌, ◌-ℤ◌, ◌≤ℤ◌, ◌<ℤ◌, ltb_ℤ,
}
use iron_loot.Exec.{Error, Result, ok, err, ⊤, not_found, record_missing}
use iron_loot.Table.{lookup, insert, lookup-insert_self, find_first-insert}
use iron_loot.Core.Dispute.{DisputeStatus}
use iron_loot.Wallet.Rows.{Wallet, LedgerType, ReferenceType, Books, entry}
use iron_loot.Wallet.Effects.{posted}
use iron_loot.Wallet.Sales.{release_settlement_run}
use iron_loot.Market.Rows.{Order, Dispute, Db}
use iron_loot.Market.Disputes.{dispute_of_order}
use iron_loot.Market.Disputes
use iron_loot.Market.Disputes.Laws.{create-MayDispute}
use iron_loot.Market.Scheduler.{is_matured, has_live_dispute, release_order}

-- The order with the date of its settlement.
abbrev pub settled : Order → ℕ → Order
settled o at = record o { seller_settled_at = some at; updated_at = at }

abbrev pub settled_wallet : Wallet → ℤ → Wallet
settled_wallet w net = record w {
  balance = w.balance +ℤ net;
  pending_balance = w.pending_balance -ℤ net;
  is_active = true;
}

release_run_covered :
    (u : ℕ) (net : ℤ) (r : ℕ) (w : Wallet) (s : Books)
    → lookup u s.wallets ≡ some w
    → net ≤ℤ w.pending_balance
    → release_settlement_run u net r s ≡ (
      ok tt,
      posted s u (settled_wallet w net) (
          entry u LedgerType.settlement_release net w.balance
            (w.balance +ℤ net)
            r
            ReferenceType.order
            s.now),
    )
unfolding release_settlement_run
release_run_covered u net r w s e h = ground arith

release_run_short :
    (u : ℕ) (net : ℤ) (r : ℕ) (w : Wallet) (s : Books)
    → lookup u s.wallets ≡ some w
    → w.pending_balance <ℤ net
    → release_settlement_run u net r s ≡ (ok tt, s)
unfolding release_settlement_run
release_run_short u net r w s e h = ground arith

release_run_missing :
    (u : ℕ) (net : ℤ) (r : ℕ) (s : Books)
    → lookup u s.wallets ≡ none
    → release_settlement_run u net r s ≡ (err not_found, s)
unfolding release_settlement_run
release_run_missing u net r s e = ground arith

module _ (k : ℕ) (o : Order) (net : ℤ) (s : Db) (e : lookup k s.orders ≡ some o)
    (n : o.seller_net ≡ some net) where
  -- The release of an order whose net is pending in the seller's wallet returns, moves exactly the
  -- net from pending to available, and dates the order's settlement.
  pub release_order-pays :
      (w : Wallet)
      → lookup o.seller_id s.books.wallets ≡ some w
      → net ≤ℤ w.pending_balance
      → let (r, s') = release_order k o s in
        (r ≡ ok tt)
        × (s'.books.wallets ≡ insert o.seller_id (settled_wallet w net) s.books.wallets)
        × (lookup k s'.orders ≡ some (settled o s.books.now))
  unfolding release_order
  release_order-pays w f h = ground (
    arith,
    release_run_covered o.seller_id net k w s.books f h,
    lookup-insert_self k (settled o s.books.now) s.orders,
  )

  -- The release of an order whose seller has less than the net pending returns, pays nothing, and
  -- marks the order as settled all the same.
  pub release_order-unpaid :
      (w : Wallet)
      → lookup o.seller_id s.books.wallets ≡ some w
      → w.pending_balance <ℤ net
      → release_order k o s
        ≡ (ok tt, record s { orders = insert k (settled o s.books.now) s.orders })
  unfolding release_order
  release_order-unpaid w f h = ground (arith, release_run_short o.seller_id net k w s.books f h)

not_ok : {x : Result ⊤ × Db} {e : Error} {s : Db} → x ≡ (err e, s) → x.0 ≡ ok tt → ⊥
not_ok p h = cc (p, h)

release_order-no_net :
    (k : ℕ) (o : Order) (s : Db)
    → o.seller_net ≡ none
    → release_order k o s ≡ (err record_missing, s)
unfolding release_order
release_order-no_net k o s n = ground arith

release_order-no_wallet :
    (k : ℕ) (o : Order) (net : ℤ) (s : Db)
    → o.seller_net ≡ some net
    → lookup o.seller_id s.books.wallets ≡ none
    → release_order k o s ≡ (err not_found, s)
unfolding release_order
release_order-no_wallet k o net s n w =
    ground (arith, release_run_missing o.seller_id net k s.books w)

pub live_not_matured :
    (k : ℕ) (o : Order) (s : Db) → has_live_dispute k s.disputes ≡ true → is_matured s k o ≡ false
unfolding is_matured
live_not_matured k o s h = elim (Option-cases o.seller_settled_at) [
  | inl e ↦ elim (Option-cases o.seller_net) [ inl f ↦ ground arith | inr (n, f) ↦ ground arith ]
  | inr (t, e) ↦ ground arith
]

settled_not_matured : (k : ℕ) (o : Order) (at : ℕ) (s : Db) → is_matured s k (settled o at) ≡ false
unfolding is_matured
settled_not_matured k o at s = refl

-- An order whose release has returned, with its row as it stands then, is not selected by the sweep
-- again.
pub release_order_once :
    (k : ℕ) (o o' : Order) (s : Db)
    → lookup k s.orders ≡ some o
    → (release_order k o s).0 ≡ ok tt
    → lookup k (release_order k o s).1.orders ≡ some o'
    → is_matured (release_order k o s).1 k o' ≡ false
release_order_once k o o' s e h f = elim (Option-cases o.seller_net) [
  | inl n ↦ absurd (not_ok (release_order-no_net k o s n) h)
  | inr (net, n) ↦ elim (Option-cases (lookup o.seller_id s.books.wallets)) [
    | inl w ↦ absurd (not_ok (release_order-no_wallet k o net s n w) h)
    | inr (w, ew) ↦
        let stored : lookup k (release_order k o s).1.orders ≡ some (settled o s.books.now) =
          elim (Bool-cases (ltb_ℤ w.pending_balance net)) [
            | inl c ↦
                rw (release_order-unpaid k o net s e n w ew (ground arith))
                  (lookup-insert_self k _ s.orders)
            | inr c ↦ (release_order-pays k o net s e n w ew (ground arith)).2
          ] in
        let same : o' ≡ settled o s.books.now = cc (sym f ∙ stored) in
        rw same (settled_not_matured k o s.books.now (release_order k o s).1)
  ]
]

-- A dispute that has just been opened freezes the settlement of its order: the sweep does not
-- select it.
pub create-is_matured :
    (user k id : ℕ) (o o' : Order) (s : Db)
    → lookup k s.orders ≡ some o
    → (Disputes.create user k s).0 ≡ ok id
    → is_matured (Disputes.create user k s).1 k o' ≡ false
create-is_matured user k id o o' s e h = elim (create-MayDispute user k o s e) [
  | inr (x, r, n) ↦ absurd (cc r)
  | inl (m, r) ↦
      let d : Dispute = record {
        order_id = k;
        creator_id = user;
        status = DisputeStatus.open_case;
      } in
      let found =
        find_first-insert (λ row. row.1.order_id == k) s.next_id d s.disputes (ground arith)
          (inl m.first) in
      rw r (live_not_matured k o' _ (ground (arith, found)))
]
