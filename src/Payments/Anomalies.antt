-- ===== src/Payments/Anomalies.antt =====
-- What src/api/src/modules/payments does with payments that differ from the request, come without an
-- amount, or are more than one.
use iron_loot.Common.{ℕ, zero, suc, ◌+◌, ◌≡◌, refl, ap, true, false, none, some, arith, length}
use iron_loot.Exec.{ok}
use iron_loot.Table.{lookup, lookup-insert_self}
use iron_loot.Payments.Rows.{
  PaymentProvider, WebhookResult, WebhookStatus, CycleOutcome, AnomalyReason, PaymentCycleStatus,
  PaymentCycle, mxn, Db, referenced_user, cycle_update,
}
use iron_loot.Payments.Cycle.{
  is_open, is_completed, is_canonical, is_settled, check_invariant, flag_anomaly, raise_refund,
  write_payment_row, status_for, DepositStatus,
}
use iron_loot.Payments.Evaluation.{
  decision, evaluate, answer_closed, answer_negative, answer_completed,
}
use iron_loot.Payments.Decisions.{flagged_cycle, failed_cycle, settled_cycle}
use iron_loot.Payments.Providers.{StripeSession, stripe_handle_webhook}
use iron_loot.Payments.Credit.{credit_from_result, act_on, apply_provider_result}

-- The same notification, `n` times.
abbrev pub redeliver : ℕ → PaymentProvider → WebhookResult → Db → Db
redeliver zero provider result s = s
redeliver (suc n) provider result s =
    redeliver n provider result (apply_provider_result provider result s).1

module _ (provider : PaymentProvider) (result : WebhookResult) where
  -- A flagged cycle has no payment of its own: every response counts as another charge.
  unmatched_step :
      (c : PaymentCycle) (s : Db)
      → lookup result.external_id s.cycles ≡ some c
      → is_open c.status ≡ false
      → c.canonical_payment_id ≡ none
      → (lookup result.external_id (apply_provider_result provider result s).1.cycles
          ≡ some (flagged_cycle AnomalyReason.other_payment s.books.now c))
        × (length (apply_provider_result provider result s).1.refunds ≡ suc (length s.refunds))
  unfolding apply_provider_result act_on evaluate answer_closed flag_anomaly raise_refund
      cycle_update
  unmatched_step c s e q k = (
    ground (
      arith,
      lookup-insert_self result.external_id
          (flagged_cycle AnomalyReason.other_payment s.books.now c) s.cycles,
    ),
    ground arith,
  )

  unmatched_refunds :
      (n : ℕ) (c : PaymentCycle) (s : Db)
      → lookup result.external_id s.cycles ≡ some c
      → is_open c.status ≡ false
      → c.canonical_payment_id ≡ none
      → length (redeliver n provider result s).refunds ≡ n + length s.refunds
  unmatched_refunds zero c s e q k = omega arith
  unmatched_refunds (suc n) c s e q k =
      let (f, l) = unmatched_step c s e q k in
      let h =
        unmatched_refunds n (flagged_cycle AnomalyReason.other_payment s.books.now c)
          (apply_provider_result provider result s).1 f refl k in
      omega arith

  module _ (c : PaymentCycle) (s : Db) (e : lookup result.external_id s.cycles ≡ some c)
      (q : is_open c.status ≡ true) (k : is_completed result.status ≡ true) where
    mismatch_step :
        (reason : AnomalyReason)
        → check_invariant result.external_id c result ≡ some reason
        → (lookup result.external_id (apply_provider_result provider result s).1.cycles
            ≡ some (flagged_cycle reason s.books.now c))
          × ((apply_provider_result provider result s).1.refunds ≡ s.refunds)
    unfolding apply_provider_result act_on evaluate answer_completed flag_anomaly cycle_update
    mismatch_step reason m = (
      ground (
        arith,
        lookup-insert_self result.external_id (flagged_cycle reason s.books.now c) s.cycles,
      ),
      ground arith,
    )

    -- A completed payment that differs from its open request, without a canonical payment on
    -- record, raises a refund request with every notification of it after the first, as if each
    -- were another charge.
    pub redeliver-refunds :
        (reason : AnomalyReason) (n : ℕ)
        → check_invariant result.external_id c result ≡ some reason
        → c.canonical_payment_id ≡ none
        → length (redeliver (suc n) provider result s).refunds ≡ n + length s.refunds
    redeliver-refunds reason n m z =
        let (f, r) = mismatch_step reason m in
        let same : length (apply_provider_result provider result s).1.refunds ≡ length s.refunds =
          ap length r in
        let h =
          unmatched_refunds n (flagged_cycle reason s.books.now c)
            (apply_provider_result provider result s).1 f refl z in
        omega arith

    -- A completed payment whose amount the provider does not tell settles an open request in pesos
    -- of the user that its reference names, and no wallet changes.
    pub apply_provider_result-untold :
        (u : ℕ)
        → result.amount ≡ none
        → c.currency ≡ mxn
        → referenced_user result.external_id ≡ some u
        → u ≡ c.user_id
        → (after : Db) × (apply_provider_result provider result s
            ≡ (ok (decision true CycleOutcome.processed (some result.external_id)), after))
          × (lookup result.external_id after.cycles ≡ some (settled_cycle result s.books.now c))
          × (after.books ≡ s.books)
    unfolding apply_provider_result act_on evaluate answer_completed cycle_update write_payment_row
        check_invariant credit_from_result
    apply_provider_result-untold u a p f g = (
      (apply_provider_result provider result s).1,
      ground arith,
      ground (
        arith,
        lookup-insert_self result.external_id (settled_cycle result s.books.now c) s.cycles,
      ),
      ground arith,
    )

  -- Another payment under a settled reference changes no wallet, and from then on the deposit's
  -- status says that it has failed.
  pub apply_provider_result-other_charge :
      (c : PaymentCycle) (s : Db)
      → lookup result.external_id s.cycles ≡ some c
      → is_settled c.status ≡ true
      → is_canonical c.canonical_payment_id result.payment_id ≡ false
      → ((apply_provider_result provider result s).1.books ≡ s.books)
        × ((d : DepositStatus) × (after : Db) × (status_for result.external_id c.user_id
                (apply_provider_result provider result s).1
              ≡ (ok d, after))
            × (d.settled ≡ false)
            × (d.failed ≡ true))
  unfolding apply_provider_result act_on evaluate answer_closed flag_anomaly raise_refund
      cycle_update status_for
  apply_provider_result-other_charge c s e q k =
      let d = flagged_cycle AnomalyReason.other_payment s.books.now c in
      (
        ground arith,
        (
          record {
            provider = c.provider;
            status = PaymentCycleStatus.anomaly;
            amount = c.amount;
            currency = c.currency;
            settled = false;
            failed = true;
            pending = false;
            requested_at = c.requested_at;
            settled_at = c.settled_at;
          },
          (apply_provider_result provider result s).1,
          ground (arith, lookup-insert_self result.external_id d s.cycles),
          refl,
          refl,
        ),
      )

  -- A notification of an open request's payment that is still in process closes the cycle as
  -- failed, and the later notification that the same payment is completed is answered as a
  -- duplicate: no wallet changes.
  pub apply_provider_result-pending :
      (c : PaymentCycle) (x : WebhookResult) (s : Db)
      → lookup result.external_id s.cycles ≡ some c
      → is_open c.status ≡ true
      → result.status ≡ WebhookStatus.pending
      → x.payment_id ≡ result.payment_id
      → x.external_id ≡ result.external_id
      → (after : Db) × (apply_provider_result provider x (apply_provider_result provider result s).1
          ≡ (ok (decision false CycleOutcome.duplicate (some result.external_id)), after))
        × (after.books ≡ s.books)
        × (lookup result.external_id after.cycles ≡ some (failed_cycle result s.books.now c))
  unfolding apply_provider_result act_on evaluate answer_closed answer_negative cycle_update
      write_payment_row
  apply_provider_result-pending c x s e q w i j =
      let f = lookup-insert_self result.external_id (failed_cycle result s.books.now c) s.cycles in
      (
        (apply_provider_result provider x (apply_provider_result provider result s).1).1,
        ground (arith, f),
        ground (arith, f),
        ground (arith, f),
      )

-- A completed session of Stripe is an orphan unless a cycle is named by the session's own
-- identifier, whatever deposit the session refers to: no cycle and no wallet changes.
pub stripe_handle_webhook-orphan :
    (session : StripeSession) (result : WebhookResult) (s : Db)
    → stripe_handle_webhook true session ≡ some result
    → lookup session.id s.cycles ≡ none
    → (after : Db) × (apply_provider_result PaymentProvider.stripe result s
        ≡ (ok (decision false CycleOutcome.orphan none), after))
      × (after.books ≡ s.books)
      × (after.cycles ≡ s.cycles)
unfolding stripe_handle_webhook apply_provider_result act_on evaluate
stripe_handle_webhook-orphan session result s e n =
    let i : result.external_id ≡ session.id = ground arith in
    (
      (apply_provider_result PaymentProvider.stripe result s).1,
      ground arith,
      ground arith,
      ground arith,
    )
