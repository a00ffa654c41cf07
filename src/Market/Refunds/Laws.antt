-- ===== src/Market/Refunds/Laws.antt =====
-- What a refund does to the order and to the money.
use iron_loot.Common.{
  min_ℤ, ℕ, ◌≡◌, refl, sym, ap, ◌∙◌, ◌≢◌, inl, inr, true, some, pos, ◌+ℤ◌, ◌-ℤ◌, int_laws,
}
use iron_loot.Exec.{ok, err, bad_request}
use iron_loot.Table.{lookup, lookup-insert_self}
use mathlib.Core.Path.{subst}
use iron_loot.Wallet.Rows.{Wallet, Books}
use iron_loot.Wallet.Posting.{total}
use iron_loot.Wallet.Effects.{IsSound, Moves, asegurar-Assured}
use iron_loot.Wallet.ReversalEffects.{reversar_run-Moves, reversar_run_wallets}
use iron_loot.Wallet.Sales.{reversar_run, split_reversal}
use iron_loot.Market.Rows.{Order, Db}
use iron_loot.Market.Refunds.{create_refund}
use iron_loot.Market.Refunds.Cases.{
  assured-IsSound, assured, Made, Refused, create_refund_cases, refunded_refused,
}

assured_kept :
    (o : Order) (b w : Wallet) (s : Books)
    → lookup o.buyer_id s.wallets ≡ some b
    → lookup o.seller_id s.wallets ≡ some w
    → assured o s ≡ s
assured_kept o b w s eb ew =
    let x = asegurar-Assured s o.buyer_id true in
    let y = asegurar-Assured x.books o.seller_id true in
    let first : x.books ≡ s = x.kept {w = b} eb in y.kept {w = w} (rw first ew) ∙ first

Made-IsSound :
    (k amount by : ℕ) (s : Db) (m : Made k amount by s)
    → m.order.buyer_id ≢ m.order.seller_id
    → IsSound s.books
    → IsSound m.books × (total m.books.wallets ≡ total s.books.wallets)
Made-IsSound k amount by s m ne v =
    let o = m.order in
    let a = assured-IsSound o s.books v in
    let moves : Moves (assured o s.books) (pos 0) (ok m.part, m.books) =
      subst (Moves (assured o s.books) (pos 0)) m.reverses
        (reversar_run-Moves o.buyer_id o.seller_id (pos amount) k (assured o s.books) a.0 ne) in
    (moves.0, grind (int_laws, moves.1, a.1))

Refused-IsSound :
    (k amount by : ℕ) (s : Db) (r : Refused k amount by s)
    → IsSound s.books
    → IsSound r.books × (total r.books.wallets ≡ total s.books.wallets)
Refused-IsSound k amount by s r v = elim r.same [
  | inl e ↦ rw e (v, refl)
  | inr (o, _, e) ↦ rw e (assured-IsSound o s.books v)
]

-- Whether a refund is made or refused, the wallets and the ledger stay sound and the money on the
-- platform is the same, for an order of two users.
pub create_refund-IsSound :
    (k amount by : ℕ) (o : Order) (s : Db)
    → lookup k s.orders ≡ some o
    → o.buyer_id ≢ o.seller_id
    → IsSound s.books
    → let s' = (create_refund k amount by s).1 in
      IsSound s'.books × (total s'.books.wallets ≡ total s.books.wallets)
create_refund-IsSound k amount by o s e ne v = elim (create_refund_cases k amount by s) [
  | inl m ↦
      let same : m.order ≡ o = cc (sym m.found ∙ e) in
      rw (m.returns) (Made-IsSound k amount by s m (rw same ne) v)
  | inr r ↦ rw (r.returns) (Refused-IsSound k amount by s r v)
]

-- After a refund of an order, no second one is made, whatever its amount and whoever asks: the call
-- throws and writes nothing.
pub create_refund_once :
    (k amount by id amount' by' : ℕ) (s : Db)
    → (create_refund k amount by s).0 ≡ ok id
    → let s' = (create_refund k amount by s).1 in
      create_refund k amount' by' s' ≡ (err bad_request, s')
create_refund_once k amount by id amount' by' s h = elim (create_refund_cases k amount by s) [
  | inr r ↦ absurd (cc (r.returns))
  | inl m ↦
      rw (m.returns) (refunded_refused k amount' by' _ _ (lookup-insert_self k _ s.orders) refl)
]

-- A refund that returns, of an order of two users who both have a wallet, adds its amount to the
-- buyer's available balance and takes it from the seller's, from what is pending first.
pub create_refund_wallets :
    (k amount by id : ℕ) (o : Order) (b w : Wallet) (s : Db)
    → (create_refund k amount by s).0 ≡ ok id
    → lookup k s.orders ≡ some o
    → o.buyer_id ≢ o.seller_id
    → lookup o.buyer_id s.books.wallets ≡ some b
    → lookup o.seller_id s.books.wallets ≡ some w
    → let t = (create_refund k amount by s).1.books.wallets in
      let kept = min_ℤ w.pending_balance (pos amount) in
      (lookup o.buyer_id t
        ≡ some (record b { balance = b.balance +ℤ pos amount; is_active = true }))
      × (lookup o.seller_id t
          ≡ some (record w {
            balance = w.balance -ℤ (pos amount -ℤ kept);
            pending_balance = w.pending_balance -ℤ kept;
          }))
unfolding split_reversal
create_refund_wallets k amount by id o b w s h e ne eb ew =
    elim (create_refund_cases k amount by s) [
      | inr r ↦ absurd (cc (r.returns))
      | inl m ↦
          let same : m.order ≡ o = cc (sym m.found ∙ e) in
          let books : assured m.order s.books ≡ s.books =
            rw same (assured_kept o b w s.books eb ew) in
          let run : reversar_run o.buyer_id o.seller_id (pos amount) k s.books
              ≡ (ok m.part, m.books) =
            cc (m.reverses, same, books) in
          let k₁ =
            reversar_run_wallets o.buyer_id o.seller_id (pos amount) k b w s.books ne eb ew in
          rw (m.returns, ap (λ r. r.1) (sym run)) (k₁.2, k₁.1)
    ]
