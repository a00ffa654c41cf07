-- ===== src/Payments/Cycle.antt =====
-- src/api/src/modules/payments/payment-cycle.service.ts: a payment is asked for, confirmed and settled.
use iron_loot.Common.{
  ℕ, ◌+◌, Bool, true, false, ◌&&◌, not, Option, none, some, ◌∷◌, ◌==◌, if◌then◌else◌, ℤ, pos, leb_ℤ,
}
use iron_loot.Exec.{
  ⊤, Exec, pure, raise, or_raise, raise_if, modify, ◌>>=◌, ◌>>◌, attempt, not_found,
  unique_violation,
}
use iron_loot.Table.{lookup, insert}
use iron_loot.Payments.Rows.{
  PaymentProvider, WebhookStatus, WebhookResult, Currency, is_platform_currency, PaymentCycleStatus,
  AnomalyReason, PaymentCycle, CycleOutcome, TraceStep, TraceOutcome, PaymentStatus, Payment, Db,
  now, referenced_user, find_cycle, cycle_update, event_create,
}

-- The first check of a request comes a minute later.
abbrev minute_ms : ℕ
minute_ms = 60000

-- `create`: the reference is unique.
unfoldable pub open_cycle : PaymentProvider → ℕ → ℕ → ℤ → Currency → Exec Db ⊤
open_cycle provider reference user_id amount currency = do
  at ← now
  found ← find_cycle reference
  elim found [
    | some c ↦ raise unique_violation
    | none ↦ modify (λ s. record s {
      cycles =
          insert reference
            (record {
              provider = provider;
              user_id = user_id;
              amount = amount;
              currency = currency;
              provider_ref = none;
              status = PaymentCycleStatus.requested;
              canonical_payment_id = none;
              anomaly_reason = none;
              requested_at = at;
              responded_at = none;
              settled_at = none;
              next_check_at = some (at + minute_ms);
              check_count = 0;
            })
            s.cycles;
    })
  ]

pub record DepositStatus : Type 0 where
  pub provider : PaymentProvider
  pub status : PaymentCycleStatus
  pub amount : ℤ
  pub currency : Currency
  pub settled : Bool
  pub failed : Bool
  pub pending : Bool
  pub requested_at : ℕ
  pub settled_at : Option ℕ

abbrev pub is_settled : PaymentCycleStatus → Bool
is_settled PaymentCycleStatus.settled = true
is_settled _ = false

abbrev pub has_failed : PaymentCycleStatus → Bool
has_failed PaymentCycleStatus.failed = true
has_failed PaymentCycleStatus.expired = true
has_failed PaymentCycleStatus.anomaly = true
has_failed _ = false

unfoldable pub status_for : ℕ → ℕ → Exec Db DepositStatus
status_for reference user_id = do
  c ← or_raise (← find_cycle reference) not_found
  raise_if (not (c.user_id == user_id)) not_found
  let settled = is_settled c.status
  let failed = has_failed c.status
  pure (record {
    provider = c.provider;
    status = c.status;
    amount = c.amount;
    currency = c.currency;
    settled = settled;
    failed = failed;
    pending = not settled && not failed;
    requested_at = c.requested_at;
    settled_at = c.settled_at;
  })

unfoldable pub reopen_for_retry : ℕ → Exec Db ⊤
reopen_for_retry cycle_id = do
  at ← now
  cycle_update cycle_id (λ c. record c {
    status = PaymentCycleStatus.requested;
    next_check_at = some (at + minute_ms);
  })

-- Without an identifier nothing is written, and an exception is only logged.
unfoldable pub attach_provider_ref : ℕ → Option ℕ → Exec Db ⊤
attach_provider_ref reference none = pure tt
attach_provider_ref reference (some r) =
    attempt (cycle_update reference (λ c. record c { provider_ref = some r }))

-- The first response wins: these cycles still wait for it.
abbrev pub is_open : PaymentCycleStatus → Bool
is_open PaymentCycleStatus.requested = true
is_open PaymentCycleStatus.confirmed = true
is_open _ = false

abbrev pub is_completed : WebhookStatus → Bool
is_completed WebhookStatus.completed = true
is_completed _ = false

-- Whether two identifiers of payments are the same.
abbrev pub is_canonical : Option ℕ → ℕ → Bool
is_canonical none payment_id = false
is_canonical (some k) payment_id = k == payment_id

abbrev same_amount : ℤ → Option ℤ → Bool
same_amount requested none = true
same_amount requested (some x) = leb_ℤ requested x && leb_ℤ x requested

abbrev same_user : Option ℕ → ℕ → Bool
same_user none user_id = true
same_user (some u) user_id = u == user_id

unfoldable pub check_invariant : ℕ → PaymentCycle → WebhookResult → Option AnomalyReason
check_invariant reference c result =
    if not (is_platform_currency c.currency)
    then some AnomalyReason.other_currency
    else if not (same_amount c.amount result.amount)
    then some AnomalyReason.other_amount
    else if not (same_user (referenced_user reference) c.user_id)
    then some AnomalyReason.other_user
    else none

abbrev or_zero : Option ℤ → ℤ
or_zero none = pos 0
or_zero (some x) = x

-- `upsert` by the reference: an update leaves the amount, the currency and the provider.
abbrev pub payment_row :
    PaymentCycle → PaymentProvider → WebhookResult → PaymentStatus → Option Payment → Payment
payment_row c provider result status none = record {
  provider = provider;
  status = status;
  amount = or_zero result.amount;
  currency = c.currency;
  external_id = result.payment_id;
}
payment_row c provider result status (some p) = record p {
  status = status;
  external_id = result.payment_id;
}

unfoldable pub write_payment_row :
    ℕ → PaymentCycle → PaymentProvider → WebhookResult → PaymentStatus → Exec Db ⊤
write_payment_row reference c provider result status = attempt (
    modify (λ s. record s {
      payments =
          insert reference (payment_row c provider result status (lookup reference s.payments))
            s.payments;
    }))

unfoldable pub raise_refund : ℕ → PaymentCycle → WebhookResult → AnomalyReason → Exec Db ⊤
raise_refund reference c result reason = attempt (
    modify (λ s. record s {
      refunds =
          record {
            amount = or_zero result.amount;
            currency = c.currency;
            reason = reason;
            payment_reference = reference;
          }
          ∷ s.refunds;
    }))

unfoldable pub flag_anomaly : ℕ → AnomalyReason → Exec Db ⊤
flag_anomaly cycle_id reason = do
  at ← now
  cycle_update cycle_id (λ c. record c {
    status = PaymentCycleStatus.anomaly;
    anomaly_reason = some reason;
    responded_at = some at;
    next_check_at = none;
  })

-- The event of a decision.
abbrev pub record_event : Option ℕ → PaymentProvider → WebhookResult → CycleOutcome → Exec Db ⊤
record_event cycle_id provider result outcome = event_create (record {
  cycle_id = cycle_id;
  provider = provider;
  external_id = result.payment_id;
  reference = result.external_id;
  step = TraceStep.cycle_decision;
  outcome = TraceOutcome.decided outcome;
})
