-- ===== src/Payments/Laws.antt =====
-- What src/api/src/modules/payments does with a confirmed payment: it is credited, also where the first
-- attempt fails.
use iron_loot.Common.{
  ℕ, ◌≡◌, refl, sym, ap, true, false, none, some, arith, ◌==◌, if◌then◌else◌, pos, ◌+ℤ◌, ◌<ℤ◌,
}
use iron_loot.Exec.{ok, err, connection_failed}
use iron_loot.Table.{lookup, insert, lookup-insert_self}
use mathlib.Core.Path.{subst}
use iron_loot.Wallet.Rows.{Books}
use iron_loot.Wallet.Posting.{balance_of}
use iron_loot.Payments.Rows.{
  PaymentProvider, WebhookResult, WebhookStatus, PaymentCycle, mxn, Db, referenced_user,
}
use iron_loot.Payments.Cycle.{is_open, check_invariant}
use iron_loot.Payments.Evaluation.{CycleDecision}
use iron_loot.Payments.Decisions.{Settled, settled_cycle, agreed-Settled}
use iron_loot.Payments.Credit.{apply_provider_result}
use iron_loot.Payments.Crediting.{fails_next}
use iron_loot.Payments.Reserving.{credit_once-fails, credit_once-pays, is_new}
use iron_loot.Payments.Deposited.{IsDepositOf, once-Writes}
use iron_loot.Payments.Answers.{
  Credits, Reopens, reopened_cycle, settled_now, paid-Credits, failed-Reopens,
}

-- An open request that a completed payment agrees with: in pesos, of the user that the reference
-- names, with the amount that was asked for; and the payment is not on record.
pub record Agrees (provider : PaymentProvider) (result : WebhookResult) (c : PaymentCycle) (s : Db)
    : Type 0 where
  pub found : lookup result.external_id s.cycles ≡ some c
  pub waits : is_open c.status ≡ true
  pub completed : result.status ≡ WebhookStatus.completed
  pub in_pesos : c.currency ≡ mxn
  pub named : referenced_user result.external_id ≡ some c.user_id
  pub told : result.amount ≡ some c.amount
  pub positive : pos 0 <ℤ c.amount
  pub fresh : is_new provider result.payment_id s.processed ≡ true

module _ (provider : PaymentProvider) (result : WebhookResult) (c : PaymentCycle) (s : Db)
    (g : Agrees provider result c s) where
  agrees-invariant : check_invariant result.external_id c result ≡ none
  unfolding check_invariant
  agrees-invariant = ground (arith, g.in_pesos, g.named, g.told)

  agrees-Settled : Settled provider result s
  agrees-Settled =
      agreed-Settled provider result s c g.found g.waits (rw g.completed refl) agrees-invariant

  abbrev of_request : IsDepositOf result c.user_id c.amount
  of_request = record { named = g.named; told = g.told; positive = g.positive }

  agrees-Credits : fails_next s ≡ false → Credits provider result s
  agrees-Credits h =
      let t = agrees-Settled in
      let s' = settled_now provider result s t in
      let (books, paid, w) =
        credit_once-pays provider result c.user_id c.amount s' g.fresh h g.positive in
      paid-Credits provider result s t (record {
        user = c.user_id;
        amount = c.amount;
        is_of = of_request;
        books = books;
        paid = paid;
        writes = once-Writes provider result s' t.completed c.user_id c.amount of_request w;
      })

  agrees-Reopens :
      fails_next s ≡ true → (result.payment_id == 0) ≡ false → Reopens provider result s
  agrees-Reopens h z =
      let t = agrees-Settled in
      let s' = settled_now provider result s t in
      let w = credit_once-fails provider result c.user_id c.amount s' g.fresh h z in
      failed-Reopens provider result s t
        (once-Writes provider result s' t.completed c.user_id c.amount of_request w, z)

-- The user has `c`'s amount more, nobody else has more or less, and the cycle is settled.
pub record IsCredited (result : WebhookResult) (c : PaymentCycle) (s after : Db) : Type 0 where
  pub balances :
      (j : ℕ)
      → balance_of j after.books.wallets ≡ (
          if j == c.user_id
          then balance_of c.user_id s.books.wallets +ℤ c.amount
          else balance_of j s.books.wallets)
  pub settles : lookup result.external_id after.cycles ≡ some (settled_cycle result s.books.now c)

credited-balances :
    (provider : PaymentProvider) (result : WebhookResult) (c : PaymentCycle) (s : Db) (b : Books)
    (m : Credits provider result s)
    → lookup result.external_id s.cycles ≡ some c
    → s.books ≡ b
    → (j : ℕ)
    → balance_of j m.after.books.wallets ≡ (
        if j == c.user_id
        then balance_of c.user_id b.wallets +ℤ c.amount
        else balance_of j b.wallets)
credited-balances provider result c s b m f q j =
    let e : m.cycle ≡ c = cc (m.found, f) in
    subst
      (λ (x : PaymentCycle). balance_of j m.after.books.wallets ≡ (
        if j == x.user_id
        then balance_of x.user_id b.wallets +ℤ x.amount
        else balance_of j b.wallets))
      e
      (subst
        (λ (y : Books). balance_of j m.after.books.wallets ≡ (
          if j == m.cycle.user_id
          then balance_of m.cycle.user_id y.wallets +ℤ m.cycle.amount
          else balance_of j y.wallets))
        q (m.paid.balances j))

module _ (provider : PaymentProvider) (result : WebhookResult) (c : PaymentCycle) (s : Db)
    (g : Agrees provider result c s) where
  -- A completed payment that agrees with an open request of a positive amount, in pesos, and that
  -- is not on record, is credited where the database does not fail: the call returns, the user that
  -- asked has exactly the amount more, nobody else's balance changes, and the cycle is settled.
  pub apply_provider_result-IsCredited :
      fails_next s ≡ false
      → (d : CycleDecision) × (after : Db) × (apply_provider_result provider result s
          ≡ (ok d, after))
        × IsCredited result c s after
  apply_provider_result-IsCredited h =
      let m = agrees-Credits provider result c s g h in
      let e : m.cycle ≡ c = cc (m.found, g.found) in
      (
        m.decision_made,
        m.after,
        m.returns,
        record {
          balances = credited-balances provider result c s s.books m g.found refl;
          settles = rw (m.cycles, e) (lookup-insert_self result.external_id _ s.cycles);
        },
      )

  -- The cycle waits again, with what was asked for, and its payment is not on record.
  reopened-Agrees :
      (m : Reopens provider result s)
      → Agrees provider result (reopened_cycle result s.books.now c) m.after
  reopened-Agrees m =
      let e : m.cycle ≡ c = cc (m.found, g.found) in
      let k = result.external_id in
      let t = insert k (settled_cycle result s.books.now m.cycle) s.cycles in
      record {
        found = rw (m.cycles, e) (lookup-insert_self k (reopened_cycle result s.books.now c) _);
        waits = refl;
        completed = g.completed;
        in_pesos = g.in_pesos;
        named = g.named;
        told = g.told;
        positive = g.positive;
        fresh = rw m.same_processed g.fresh;
      }

  -- If crediting such a payment, which has an identifier, fails, the call throws and no wallet
  -- changes; and the next notification of it, where crediting does not fail, returns and credits
  -- the user with exactly the amount that was asked for.
  pub apply_provider_result_retried :
      fails_next s ≡ true
      → (result.payment_id == 0) ≡ false
      → fails_next (apply_provider_result provider result s).1 ≡ false
      → (d : CycleDecision) × (failed after : Db) × (apply_provider_result provider result s
          ≡ (err connection_failed, failed))
        × (failed.books ≡ s.books)
        × (apply_provider_result provider result failed ≡ (ok d, after))
        × ((j : ℕ)
            → balance_of j after.books.wallets ≡ (
                if j == c.user_id
                then balance_of c.user_id s.books.wallets +ℤ c.amount
                else balance_of j s.books.wallets))
  apply_provider_result_retried h z n =
      let m = agrees-Reopens provider result c s g h z in
      let c' = reopened_cycle result s.books.now c in
      let f : fails_next m.after ≡ false = rw (sym (ap (λ x. x.1) m.returns)) n in
      let again = agrees-Credits provider result c' m.after (reopened-Agrees m) f in
      (
        again.decision_made,
        m.after,
        again.after,
        m.returns,
        m.same_books,
        again.returns,
        credited-balances provider result c' m.after s.books again (reopened-Agrees m).found
            m.same_books,
      )
