-- ===== src/Payments/Entries.antt =====
-- The entry points of deposits: src/api/src/modules/payments/payments.service.ts (initiatePayment and
-- handleWebhook) and payment-reconciliation.service.ts.
use iron_loot.Common.{ℕ, Option, none, some, [], ◌∷◌, if◌then◌else◌, ℤ}
use iron_loot.Exec.{gets, Result, ok, err, ⊤, Exec, pure, raise, ◌>>=◌, ◌>>◌, attempt, bad_request}
use iron_loot.Table.{Table}
use iron_loot.Payments.Rows.{
  PaymentProvider, WebhookResult, PaymentCycle, platform_currency, TraceStep, TraceOutcome, Db, now,
  deposit_reference, event_create,
}
use iron_loot.Payments.Registry.{Name, Names, Adapter, provider_name, resolve}
use iron_loot.Payments.Cycle.{open_cycle, attach_provider_ref}
use iron_loot.Payments.Checks.{due_for_check, is_expired, expire, schedule_next_check}
use iron_loot.Payments.Credit.{apply_provider_result}

abbrev pub trace : PaymentProvider → ℕ → TraceStep → TraceOutcome → Option ℕ → ℕ → Exec Db ⊤
trace provider reference step outcome cycle_id external_id = event_create (record {
  cycle_id = cycle_id;
  provider = provider;
  external_id = external_id;
  reference = reference;
  step = step;
  outcome = outcome;
})

-- What a provider's call ends with.
abbrev pub called : {A : Type 0} → Result A → Exec Db A
called (ok a) = pure a
called (err e) = raise e

abbrev pub create_with : Option Adapter → ℕ → ℤ → Exec Db ⊤
create_with none reference amount = raise bad_request
create_with (some p) reference amount =
    if p.check_status
    then called (p.create_payment reference amount) >>= attach_provider_ref reference
    else raise bad_request

-- The request is opened before the provider is called. `provider` is the cast of its name.
unfoldable pub initiate_payment : Names → ℕ → ℤ → PaymentProvider → Name → Exec Db ⊤
initiate_payment registry user_id amount provider name = do
  at ← now
  let order_id = deposit_reference user_id at
  open_cycle provider order_id user_id amount platform_currency
  trace provider order_id TraceStep.deposit_requested TraceOutcome.fine none 0
  create_with (resolve registry name) order_id amount

abbrev pub apply_found : PaymentProvider → Option WebhookResult → Exec Db ⊤
apply_found provider none = pure tt
apply_found provider (some result) = apply_provider_result provider result >> pure tt

-- A notification of an unknown provider is only logged.
abbrev pub handle_with : Option Adapter → ℕ → Exec Db ⊤
handle_with none payload = pure tt
handle_with (some p) payload = called (p.handle_webhook payload) >>= apply_found p.provider

unfoldable pub handle_webhook : Names → Name → ℕ → Exec Db ⊤
handle_webhook registry name payload = handle_with (resolve registry name) payload

-- `adapter?.findPayment`
abbrev pub lookup_payment : Option Adapter → ℕ → PaymentCycle → Exec Db (Option WebhookResult)
lookup_payment none reference c = pure none
lookup_payment (some p) reference c = elim p.find_payment [
  | none ↦ pure none
  | some find ↦ called (find reference c.provider_ref)
]

abbrev pub check_result : ℕ → PaymentCycle → Option WebhookResult → Exec Db ⊤
check_result reference c none = do
  trace c.provider reference TraceStep.poll_attempt TraceOutcome.failed (some reference) 0
  schedule_next_check reference c.check_count
check_result reference c (some result) = do
  trace c.provider reference TraceStep.poll_attempt TraceOutcome.fine (some reference)
      result.payment_id
  apply_provider_result c.provider result
  pure tt

module _ (registry : Names) where
  abbrev pub end_request : ℕ → PaymentCycle → Exec Db ⊤
  end_request reference c = do
    trace c.provider reference TraceStep.cycle_expired TraceOutcome.failed (some reference) 0
    expire reference

  abbrev pub check_request : ℕ → PaymentCycle → Exec Db ⊤
  check_request reference c = do
    found ← lookup_payment (resolve registry (provider_name c.provider)) reference c
    check_result reference c found

  unfoldable pub reconcile_one : ℕ → PaymentCycle → Exec Db ⊤
  reconcile_one reference c = do
    at ← now
    setting ← gets (λ s. s.payment_expiration_hours)
    if is_expired setting at c then end_request reference c else check_request reference c

  -- What one request throws does not keep the others from being checked.
  unfoldable pub reconcile_all : Table PaymentCycle → Exec Db ⊤
  reconcile_all [] = pure tt
  reconcile_all ((reference, c) ∷ cs) = do attempt (reconcile_one reference c); reconcile_all cs

  unfoldable pub reconcile_pending : Exec Db ⊤
  reconcile_pending = due_for_check 50 >>= reconcile_all
