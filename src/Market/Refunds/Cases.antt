-- ===== src/Market/Refunds/Cases.antt =====
-- How a refund ends: made, with what it has met and writes, or refused.
use iron_loot.Common.{
  ℕ, ◌+◌, ◌≤◌, ◌<◌, ◌≡◌, refl, ◌∙◌, ◌⊎◌, inl, inr, true, ◌||◌, none, some, arith, ltb, ◌==◌,
  Bool-cases, Option-cases, ℤ, pos,
}
use iron_loot.Exec.{Error, ok, err, not_found, bad_request, outcome_cases}
use iron_loot.Table.{lookup, insert}
use iron_loot.Core.Order.{OrderStatus, can_transition}
use iron_loot.Wallet.Rows.{Books}
use iron_loot.Wallet.Posting.{total}
use iron_loot.Wallet.Effects.{IsSound, asegurar-Assured}
use iron_loot.Wallet.Sales.{Reversal, reversar_run}
use iron_loot.Market.Rows.{Order, RefundRequest, RefundStatus, Db}
use iron_loot.Market.Refunds.{create_refund, refund_run, refund_of_order}

-- The books with a wallet for the buyer and the seller each.
abbrev pub assured : Order → Books → Books
assured o s =
    let x = asegurar-Assured s o.buyer_id true in (asegurar-Assured x.books o.seller_id true).books

abbrev pub pending_request : ℕ → ℕ → ℕ → RefundRequest
pending_request k amount by = record {
  order_id = k;
  amount = amount;
  status = RefundStatus.pending_refund;
  initiated_by = by;
  resolved_at = none;
}

-- A refund that is made: what it has met, and what it writes.
pub record Made (k amount by : ℕ) (s : Db) : Type 0 where
  pub order : Order
  pub found : lookup k s.orders ≡ some order
  pub first : refund_of_order k s.refunds ≡ none
  pub allowed : can_transition order.status OrderStatus.refunded ≡ true
  pub positive : 0 < amount
  pub at_most : amount ≤ order.total_amount
  pub part : Reversal
  pub books : Books
  pub reverses :
      reversar_run order.buyer_id order.seller_id (pos amount) k (assured order s.books)
      ≡ (ok part, books)
  pub same_now : books.now ≡ s.books.now
  pub returns : create_refund k amount by s ≡ (
    ok s.next_id,
    record s {
      books = books;
      orders =
          insert k
            (record order { status = OrderStatus.refunded; updated_at = s.books.now })
            s.orders;
      refunds = insert s.next_id (pending_request k amount by) s.refunds;
      next_id = s.next_id + 1;
    },
  )

pub record Refused (k amount by : ℕ) (s : Db) : Type 0 where
  pub error : Error
  pub books : Books
  pub returns : create_refund k amount by s ≡ (err error, record s { books = books })
  pub same :
      (books ≡ s.books) ⊎ ((o : Order) × (lookup k s.orders ≡ some o) × (books ≡ assured o s.books))

refused :
    (k amount by : ℕ) (s : Db) {e : Error}
    → create_refund k amount by s ≡ (err e, s)
    → Refused k amount by s
refused k amount by s {e} h = record { error = e; books = s.books; returns = h; same = inl refl }

pub refunded_refused :
    (k amount by : ℕ) (o : Order) (s : Db)
    → lookup k s.orders ≡ some o
    → o.status ≡ OrderStatus.refunded
    → create_refund k amount by s ≡ (err bad_request, s)
unfolding create_refund can_transition
refunded_refused k amount by o s e h = elim (Option-cases (refund_of_order k s.refunds)) [
  | inl q ↦ ground arith
  | inr (r, q) ↦ ground arith
]

reversar_run_now :
    (b u : ℕ) (amount : ℤ) (r : ℕ) (s s' : Books) (p : Reversal)
    → reversar_run b u amount r s ≡ (ok p, s')
    → s'.now ≡ s.now
unfolding reversar_run
reversar_run_now b u amount r s s' p h = elim (Option-cases (lookup b s.wallets)) [
  | inl eb ↦ absurd (ground arith)
  | inr (x, eb) ↦ elim (Option-cases (lookup u s.wallets)) [
    | inl eu ↦ absurd (ground arith)
    | inr (y, eu) ↦ ground arith
  ]
]

pub create_refund_cases : (k amount by : ℕ) (s : Db) → Made k amount by s ⊎ Refused k amount by s
unfolding create_refund refund_run
create_refund_cases k amount by s = elim (Option-cases (lookup k s.orders)) [
  | inl e ↦ inr (refused k amount by s {e = not_found} (ground arith))
  | inr (o, e) ↦ elim (Option-cases (refund_of_order k s.refunds)) [
    | inr (r, q) ↦ inr (refused k amount by s {e = bad_request} (ground arith))
    | inl q ↦ elim (Bool-cases (can_transition o.status OrderStatus.refunded)) [
      | inr t ↦ inr (refused k amount by s {e = bad_request} (ground arith))
      | inl t ↦ elim (Bool-cases ((amount == 0) || ltb o.total_amount amount)) [
        | inl z ↦ inr (refused k amount by s {e = bad_request} (ground arith))
        | inr z ↦
            let x = asegurar-Assured s.books o.buyer_id true in
            let y = asegurar-Assured x.books o.seller_id true in
            elim (outcome_cases (reversar_run o.buyer_id o.seller_id (pos amount) k y.books)) [
              | inl (part, books, h) ↦ inl (record {
                order = o;
                found = e;
                first = q;
                allowed = t;
                positive = ground arith;
                at_most = ground arith;
                part = part;
                books = books;
                reverses = h;
                same_now =
                    reversar_run_now o.buyer_id o.seller_id (pos amount) k y.books books part h
                    ∙ y.same_now
                    ∙ x.same_now;
                returns = ground (arith, x.returns, y.returns, x.same_now, y.same_now);
              })
              | inr (f, books, h) ↦ inr (record {
                error = f;
                books = y.books;
                returns = ground (arith, x.returns, y.returns);
                same = inr (o, e, refl);
              })
            ]
      ]
    ]
  ]
]

pub assured-IsSound :
    (o : Order) (s : Books)
    → IsSound s
    → IsSound (assured o s) × (total (assured o s).wallets ≡ total s.wallets)
assured-IsSound o s v =
    let x = asegurar-Assured s o.buyer_id true in
    let y = asegurar-Assured x.books o.seller_id true in
    (y.sound (x.sound v), y.same_total ∙ x.same_total)
