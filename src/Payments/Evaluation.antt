-- ===== src/Payments/Evaluation.antt =====
-- How a cycle answers a provider: evaluate in src/api/src/modules/payments/payment-cycle.service.ts.
use iron_loot.Common.{ℕ, Bool, true, false, not, Option, none, some, if◌then◌else◌}
use iron_loot.Exec.{Exec, pure, ◌>>=◌, ◌>>◌}
use iron_loot.Payments.Rows.{
  PaymentProvider, WebhookResult, PaymentCycleStatus, AnomalyReason, PaymentCycle, CycleOutcome,
  PaymentStatus, Db, now, find_cycle, cycle_update,
}
use iron_loot.Payments.Cycle.{
  check_invariant, flag_anomaly, is_canonical, is_completed, is_open, raise_refund, record_event,
  write_payment_row,
}

pub record CycleDecision : Type 0 where
  pub should_credit : Bool
  pub outcome : CycleOutcome
  pub cycle_id : Option ℕ

abbrev pub decision : Bool → CycleOutcome → Option ℕ → CycleDecision
decision credit outcome id = record { should_credit = credit; outcome = outcome; cycle_id = id }

abbrev other_charge : PaymentProvider → WebhookResult → PaymentCycle → Exec Db CycleDecision
other_charge provider result c = do
  let id = result.external_id
  let reason = AnomalyReason.other_payment
  flag_anomaly id reason
  record_event (some id) provider result CycleOutcome.cancelled
  raise_refund id c result reason
  pure (decision false CycleOutcome.cancelled (some id))

abbrev same_charge : PaymentProvider → WebhookResult → Exec Db CycleDecision
same_charge provider result = do
  record_event (some result.external_id) provider result CycleOutcome.duplicate
  pure (decision false CycleOutcome.duplicate (some result.external_id))

-- A response to a cycle that is closed.
unfoldable pub answer_closed :
    PaymentProvider → WebhookResult → PaymentCycle → Exec Db CycleDecision
answer_closed provider result c =
    if is_canonical c.canonical_payment_id result.payment_id
    then same_charge provider result
    else other_charge provider result c

-- A negative response closes the cycle as well.
unfoldable pub answer_negative :
    PaymentProvider → WebhookResult → PaymentCycle → Exec Db CycleDecision
answer_negative provider result c = do
  let id = result.external_id
  at ← now
  cycle_update id (λ c. record c {
    status = PaymentCycleStatus.failed;
    responded_at = some at;
    canonical_payment_id = some result.payment_id;
    next_check_at = none;
  })
  record_event (some id) provider result CycleOutcome.rejected
  write_payment_row id c provider result PaymentStatus.failed
  pure (decision false CycleOutcome.rejected (some id))

-- A completed payment settles the cycle, unless it differs from the request.
unfoldable pub answer_completed :
    PaymentProvider → WebhookResult → PaymentCycle → Exec Db CycleDecision
answer_completed provider result c =
    let id = result.external_id in
    elim (check_invariant id c result) [
      | some mismatch ↦ do
        flag_anomaly id mismatch
        record_event (some id) provider result CycleOutcome.anomaly
        pure (decision false CycleOutcome.anomaly (some id))
      | none ↦ do
        at ← now
        cycle_update id (λ c. record c {
          status = PaymentCycleStatus.settled;
          canonical_payment_id = some result.payment_id;
          responded_at = some at;
          settled_at = some at;
          next_check_at = none;
        })
        record_event (some id) provider result CycleOutcome.processed
        write_payment_row id c provider result PaymentStatus.completed
        pure (decision true CycleOutcome.processed (some id))
    ]

unfoldable pub evaluate : PaymentProvider → WebhookResult → Exec Db CycleDecision
evaluate provider result = do
  found ← find_cycle result.external_id
  elim found [
    | none ↦ do
      record_event none provider result CycleOutcome.orphan
      pure (decision false CycleOutcome.orphan none)
    | some c ↦
        if not (is_open c.status)
        then answer_closed provider result c
        else if not (is_completed result.status)
        then answer_negative provider result c
        else answer_completed provider result c
  ]
