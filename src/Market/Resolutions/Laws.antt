-- ===== src/Market/Resolutions/Laws.antt =====
-- What a resolved dispute leaves behind.
use iron_loot.Common.{
  pos, ◌+ℤ◌, ◌-ℤ◌, min_ℤ, ◌≢◌, ap, ℕ, ◌+◌, ◌*◌, ◌≤◌, ◌≡◌, refl, sym, ◌∙◌, ◌⊎◌, inl, inr, true,
  false, none, some, arith, ◌==◌, Bool-cases, ℤ,
}
use iron_loot.Exec.{Result, Error, ok, err}
use iron_loot.Table.{lookup, insert, lookup-insert_self, find_first-insert}
use iron_loot.Core.Order.{OrderStatus}
use iron_loot.Core.Dispute.{DisputeStatus, can_transition}
use iron_loot.Market.Rows.{Order, Dispute, Db}
use iron_loot.Market.Disputes.{dispute_of_order}
use iron_loot.Market.Refunds.Cases.{Made, pending_request, create_refund_cases}
use iron_loot.Market.Refunds.{create_refund}
use iron_loot.Market.Refunds.Laws.{create_refund_wallets}
use iron_loot.Wallet.Rows.{Wallet}
use mathlib.Core.Path.{subst}
use iron_loot.Market.Scheduler.{is_matured, has_live_dispute, is_confirmed}
use iron_loot.Market.Shipments.{shipment_of_order}
use iron_loot.Market.Scheduler.Settlements.{live_not_matured}
use iron_loot.Market.Resolutions.{resolve_dispute_favor_buyer, request_dispute_evidence}

abbrev pub resolved : Dispute → Dispute
resolved d = record d { status = DisputeStatus.resolved }

abbrev pub refunded : Order → ℕ → Order
refunded o at = record o { status = OrderStatus.refunded; updated_at = at }

abbrev pub paid : Wallet → ℤ → Wallet
paid b price = record b { balance = b.balance +ℤ price; is_active = true }

abbrev pub charged : Wallet → ℤ → Wallet
charged w price =
    let kept = min_ℤ w.pending_balance price in
    record w { balance = w.balance -ℤ (price -ℤ kept); pending_balance = w.pending_balance -ℤ kept }

-- What a dispute that is resolved for the buyer leaves: the refund of the whole price on record, the
-- price in the buyer's wallet and out of the seller's, from what is pending first, the dispute
-- resolved and the order refunded.
pub record Repaid (id admin : ℕ) (d : Dispute) (o : Order) (b w : Wallet) (s s' : Db) : Type 0 where
  pub buyer : lookup o.buyer_id s'.books.wallets ≡ some (paid b (pos o.total_amount))
  pub seller : lookup o.seller_id s'.books.wallets ≡ some (charged w (pos o.total_amount))
  pub on_record :
      s'.refunds ≡ insert s.next_id (pending_request d.order_id o.total_amount admin) s.refunds
  pub settled : s'.disputes ≡ insert id (resolved d) s.disputes
  pub over : lookup d.order_id s'.orders ≡ some (refunded o s.books.now)

module _ (id admin : ℕ) (d : Dispute) (o : Order) (b w : Wallet) (s : Db)
    (ed : lookup id s.disputes ≡ some d) (eo : lookup d.order_id s.orders ≡ some o)
    (ne : o.buyer_id ≢ o.seller_id) (eb : lookup o.buyer_id s.books.wallets ≡ some b)
    (ew : lookup o.seller_id s.books.wallets ≡ some w) where
  Made-Repaid :
      Made d.order_id o.total_amount admin s
      → ((resolve_dispute_favor_buyer id admin s).0 ≡ ok s.next_id)
        × Repaid id admin d o b w s (resolve_dispute_favor_buyer id admin s).1
  unfolding resolve_dispute_favor_buyer
  Made-Repaid m =
      let same : m.order ≡ o = cc (sym m.found ∙ eo) in
      let done : (create_refund d.order_id o.total_amount admin s).0 ≡ ok s.next_id =
        ap (λ x. x.0) m.returns in
      let k =
        create_refund_wallets d.order_id o.total_amount admin s.next_id o b w s done eo ne eb ew in
      let r =
        subst
          (λ (x : Result ℕ × Db).
            lookup o.buyer_id x.1.books.wallets ≡ some (paid b (pos o.total_amount)))
          m.returns k.0 in
      let p =
        subst
          (λ (x : Result ℕ × Db).
            lookup o.seller_id x.1.books.wallets ≡ some (charged w (pos o.total_amount)))
          m.returns k.1 in
      rw (ed, eo, m.returns, ed, same)
        (
          refl,
          record {
            buyer = r;
            seller = p;
            on_record = refl;
            settled = refl;
            over = lookup-insert_self d.order_id _ s.orders;
          },
        )

  -- A dispute over an order of two users who both have a wallet, resolved for the buyer, has the
  -- whole price refunded: the refund is on record, the buyer has the price more and the seller
  -- less, from what is pending first, the dispute is resolved and the order refunded. If the refund
  -- throws, so does the call, and the disputes and the orders stay as they were.
  pub resolve_dispute_favor_buyer_lem :
      let (r, s') = resolve_dispute_favor_buyer id admin s in
      ((r ≡ ok s.next_id) × Repaid id admin d o b w s s')
      ⊎ ((e : Error) × ((r ≡ err e) × (s'.disputes ≡ s.disputes) × (s'.orders ≡ s.orders)))
  unfolding resolve_dispute_favor_buyer
  resolve_dispute_favor_buyer_lem = elim (create_refund_cases d.order_id o.total_amount admin s) [
    | inr r ↦ inr (r.error, rw (ed, eo, r.returns) (refl, refl, refl))
    | inl m ↦ inl (Made-Repaid m)
  ]

abbrev WindowOver : Order → Db → Type 0
WindowOver o s = o.created_at + s.settings.dispute_window_days * 24 * (60 * 60 * 1000) ≤ s.books.now

due :
    (k : ℕ) (o : Order) (n : ℤ) (s : Db)
    → has_live_dispute k s.disputes ≡ false
    → o.seller_net ≡ some n
    → o.seller_settled_at ≡ none
    → WindowOver o s
    → is_matured s k o ≡ true
unfolding is_matured
due k o n s h e f w =
    elim (Bool-cases (
      is_confirmed (shipment_of_order k s.shipments)
        (s.settings.settlement_holdback_hours * (60 * 60 * 1000)) s.books.now)) [
          | inl c ↦ ground arith
          | inr c ↦ ground arith
        ]

-- A dispute that is resolved for the buyer frees the settlement that it has frozen: where the order
-- has a net that was not settled and the window after the sale is over, the refunded order is
-- selected by the sweep, and its seller is to be paid.
pub resolve_dispute_favor_buyer-is_matured :
    (id admin j : ℕ) (d : Dispute) (o : Order) (n : ℤ) (s : Db)
    → lookup id s.disputes ≡ some d
    → dispute_of_order d.order_id s.disputes ≡ some (id, d)
    → lookup d.order_id s.orders ≡ some o
    → (resolve_dispute_favor_buyer id admin s).0 ≡ ok j
    → o.seller_net ≡ some n
    → o.seller_settled_at ≡ none
    → WindowOver o s
    → let s' = (resolve_dispute_favor_buyer id admin s).1 in
      (lookup d.order_id s'.orders ≡ some (refunded o s.books.now))
      × (is_matured s' d.order_id (refunded o s.books.now) ≡ true)
unfolding resolve_dispute_favor_buyer
resolve_dispute_favor_buyer-is_matured id admin j d o n s ed found eo h net unpaid w =
    elim (create_refund_cases d.order_id o.total_amount admin s) [
      | inr r ↦
          let bad : (resolve_dispute_favor_buyer id admin s).0 ≡ err r.error =
            rw (ed, eo, r.returns) refl in
          absurd (cc (bad, h))
      | inl m ↦
          let same : m.order ≡ o = cc (sym m.found ∙ eo) in
          let after =
            find_first-insert (λ row. row.1.order_id == d.order_id) id (resolved d) s.disputes
              (ground arith) (inr (d, found)) in
          rw (ed, eo, m.returns, ed, same)
            (
              lookup-insert_self d.order_id _ s.orders,
              due d.order_id (refunded o s.books.now) n _ (ground (arith, after)) net unpaid
                  (rw m.same_now w),
            )
    ]

-- The administration asks for evidence whatever the dispute's status: one that was resolved or
-- closed is in mediation again, a transition that the state machine does not allow, and its order's
-- settlement is frozen again.
pub request_dispute_evidence-reopens :
    (id : ℕ) (d : Dispute) (o : Order) (s : Db)
    → lookup id s.disputes ≡ some d
    → dispute_of_order d.order_id s.disputes ≡ some (id, d)
    → (d.status ≡ DisputeStatus.resolved) ⊎ (d.status ≡ DisputeStatus.closed)
    → let (r, s') = request_dispute_evidence id s in
      (r ≡ ok tt)
      × (can_transition d.status DisputeStatus.in_mediation ≡ false)
      × (is_matured s' d.order_id o ≡ false)
unfolding request_dispute_evidence can_transition
request_dispute_evidence-reopens id d o s ed found done =
    let d' : Dispute = record d { status = DisputeStatus.in_mediation } in
    let after =
      find_first-insert (λ row. row.1.order_id == d.order_id) id d' s.disputes (ground arith)
        (inr (d, found)) in
    (ground arith, ground arith, rw ed (live_not_matured d.order_id o _ (ground (arith, after))))
