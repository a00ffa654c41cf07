-- ===== src/Payments/Runs.antt =====
-- Every entry point of src/api/src/modules/payments keeps the promise of the deposits.
use iron_loot.Common.{
  ℕ, ◌+◌, ◌≤◌, ◌≡◌, refl, ◌≢◌, inl, inr, Option, none, some, List, [], ◌∷◌, arith, Bool-cases, ℤ,
  length,
}
use iron_loot.Exec.{Result, ⊤, Exec, pure, modify, ◌>>◌, attempt}
use iron_loot.Table.{Table, lookup}
use iron_loot.Wallet.Rows.{Ledger}
use iron_loot.Payments.Rows.{
  PaymentProvider, WebhookResult, PaymentCycle, platform_currency, TraceStep, TraceOutcome, Db,
  deposit_reference,
}
use iron_loot.Payments.Registry.{Name, Names, Adapter, resolve, provider_name}
use iron_loot.Payments.Cycle.{open_cycle}
use iron_loot.Payments.Checks.{due_for_check, is_expired, expire, schedule_next_check}
use iron_loot.Payments.Credit.{apply_provider_result}
use iron_loot.Payments.Entries.{
  create_with, trace, apply_found, lookup_payment, check_result, check_request, end_request,
  handle_with, called, initiate_payment, handle_webhook, reconcile_one, reconcile_all,
  reconcile_pending,
}
use iron_loot.Payments.Promises.{
  Deposit, absent, stray, credits, viewed, view, stays, asks, pays, closes, strays, Steps, ends,
  goes, apply_provider_result-Step,
}
use iron_loot.Payments.Refinements.{
  Refines, Steps-join, bind-Refines, called-Refines, create_with-Refines, expire-Refines, one,
  open_cycle-Refines, pure-Refines, schedule_next_check-Refines, trace-Refines,
}

apply_provider_result-Refines :
    (p : PaymentProvider) (x : WebhookResult) → Refines (apply_provider_result p x)
apply_provider_result-Refines p x r s = one (apply_provider_result-Step r p x s)

apply_found-Refines : (p : PaymentProvider) (x : Option WebhookResult) → Refines (apply_found p x)
apply_found-Refines p none = pure-Refines tt
apply_found-Refines p (some x) =
    bind-Refines (apply_provider_result p x) (λ _. pure tt) (apply_provider_result-Refines p x)
      (λ _. pure-Refines tt)

handle_with-Refines : (a : Option Adapter) (payload : ℕ) → Refines (handle_with a payload)
handle_with-Refines none payload = pure-Refines tt
handle_with-Refines (some p) payload =
    bind-Refines (called (p.handle_webhook payload)) (apply_found p.provider)
      (called-Refines (p.handle_webhook payload)) (apply_found-Refines p.provider)

find-Refines :
    (f : Option (ℕ → Option ℕ → Result (Option WebhookResult))) (p : Adapter) (k : ℕ)
    (c : PaymentCycle)
    → p.find_payment ≡ f
    → Refines (lookup_payment (some p) k c)
find-Refines none p k c e = rw e (pure-Refines {A = Option WebhookResult} none)
find-Refines (some f) p k c e = rw e (called-Refines (f k c.provider_ref))

lookup_payment-Refines :
    (a : Option Adapter) (k : ℕ) (c : PaymentCycle) → Refines (lookup_payment a k c)
lookup_payment-Refines none k c = pure-Refines {A = Option WebhookResult} none
lookup_payment-Refines (some p) k c = find-Refines p.find_payment p k c refl

check_result-Refines :
    (k : ℕ) (c : PaymentCycle) (x : Option WebhookResult) → Refines (check_result k c x)
check_result-Refines k c none =
    bind-Refines (trace c.provider k TraceStep.poll_attempt TraceOutcome.failed (some k) 0)
      (λ _. schedule_next_check k c.check_count)
      (trace-Refines c.provider k TraceStep.poll_attempt TraceOutcome.failed (some k) 0)
      (λ _. schedule_next_check-Refines k c.check_count)
check_result-Refines k c (some x) =
    let e = x.payment_id in
    bind-Refines (trace c.provider k TraceStep.poll_attempt TraceOutcome.fine (some k) e)
      (λ _. apply_found c.provider (some x))
      (trace-Refines c.provider k TraceStep.poll_attempt TraceOutcome.fine (some k) e)
      (λ _. apply_found-Refines c.provider (some x))

module _ (registry : Names) where
  initiate_payment-Refines :
      (u : ℕ) (x : ℤ) (p : PaymentProvider) (name : Name)
      → Refines (initiate_payment registry u x p name)
  unfolding initiate_payment
  initiate_payment-Refines u x p name r s =
      let k = deposit_reference u s.books.now in
      let asked_for = trace p k TraceStep.deposit_requested TraceOutcome.fine none 0 in
      let create = create_with (resolve registry name) k x in
      bind-Refines (open_cycle p k u x platform_currency) (λ _. asked_for >> create)
        (open_cycle-Refines p k u x platform_currency)
        (λ _.
          bind-Refines asked_for (λ _. create)
            (trace-Refines p k TraceStep.deposit_requested TraceOutcome.fine none 0)
            (λ _. create_with-Refines (resolve registry name) k x))
        r s

  handle_webhook-Refines :
      (name : Name) (payload : ℕ) → Refines (handle_webhook registry name payload)
  unfolding handle_webhook
  handle_webhook-Refines name payload = handle_with-Refines (resolve registry name) payload

  check_request-Refines : (k : ℕ) (c : PaymentCycle) → Refines (check_request registry k c)
  check_request-Refines k c =
      let a = resolve registry (provider_name c.provider) in
      bind-Refines (lookup_payment a k c) (check_result k c) (lookup_payment-Refines a k c)
        (check_result-Refines k c)

  end_request-Refines : (k : ℕ) (c : PaymentCycle) → Refines (end_request registry k c)
  end_request-Refines k c =
      bind-Refines (trace c.provider k TraceStep.cycle_expired TraceOutcome.failed (some k) 0)
        (λ _. expire k)
        (trace-Refines c.provider k TraceStep.cycle_expired TraceOutcome.failed (some k) 0)
        (λ _. expire-Refines k)

  reconcile_one-Refines : (k : ℕ) (c : PaymentCycle) → Refines (reconcile_one registry k c)
  unfolding reconcile_one
  reconcile_one-Refines k c r s =
      elim (Bool-cases (is_expired s.payment_expiration_hours s.books.now c)) [
        | inl h ↦ rw h (end_request-Refines k c r s)
        | inr h ↦ rw h (check_request-Refines k c r s)
      ]

  reconcile_all-Refines : (cs : Table PaymentCycle) → Refines (reconcile_all registry cs)
  unfolding reconcile_all
  reconcile_all-Refines [] = pure-Refines tt
  reconcile_all-Refines ((k, c) ∷ cs) =
      bind-Refines (attempt (reconcile_one registry k c)) (λ _. reconcile_all registry cs)
        (reconcile_one-Refines k c) (λ _. reconcile_all-Refines cs)

  reconcile_pending-Refines : Refines (reconcile_pending registry)
  unfolding reconcile_pending due_for_check
  reconcile_pending-Refines =
      bind-Refines (due_for_check 50) (reconcile_all registry) (λ r s. ends) reconcile_all-Refines

-- A call of the component, by a user, a provider or the clock; and the passing of time.
pub data Action : Type 0 where
  initiate : ℕ → ℤ → PaymentProvider → Name → Action
  notify : Name → ℕ → Action
  reconcile : Action
  wait : ℕ → Action

unfoldable pub act : Names → Action → Exec Db ⊤
act registry (initiate u x p name) = initiate_payment registry u x p name
act registry (notify name payload) = handle_webhook registry name payload
act registry reconcile = reconcile_pending registry
act registry (wait n) = modify (λ s. record s { books = record s.books { now = s.books.now + n } })

act-Refines : (registry : Names) (a : Action) → Refines (act registry a)
unfolding act view
act-Refines registry (initiate u x p name) = initiate_payment-Refines registry u x p name
act-Refines registry (notify name payload) = handle_webhook-Refines registry name payload
act-Refines registry reconcile = reconcile_pending-Refines registry
act-Refines registry (wait n) = λ r s. ends

-- Calls one after another; an exception ends its own call only.
unfoldable pub run : Names → List Action → Db → Db
run registry [] s = s
run registry (a ∷ rest) s = run registry rest (act registry a s).1

-- Over any sequence of requests, notifications, rounds of reconciliation and the passing of time,
-- each returned or thrown, the cycle and the ledger entries of every reference take only steps of
-- the abstract deposit: asked for, then either paid, to the user and with the amount that were
-- asked for, or closed; a paid or closed deposit stays as it is.
pub run-Steps :
    (registry : Names) (calls : List Action) (r : ℕ) (s : Db)
    → Steps (view r s) (view r (run registry calls s))
unfolding run
run-Steps registry [] r s = ends
run-Steps registry (a ∷ rest) r s =
    Steps-join (act-Refines registry a r s) (run-Steps registry rest r (act registry a s).1)

-- A path of the specification that starts where nothing is asked for does not end astray.
stays-Sane : {a b : Deposit} → Steps a b → a ≢ stray → b ≢ stray
stays-Sane ends h = h
stays-Sane (goes stays g) h = stays-Sane g h
stays-Sane (goes asks g) h = stays-Sane g (λ e. cc)
stays-Sane (goes pays g) h = stays-Sane g (λ e. cc)
stays-Sane (goes closes g) h = stays-Sane g (λ e. cc)
stays-Sane (goes strays g) h = absurd (h refl)

viewed-length : (o : Option PaymentCycle) (es : List Ledger) → viewed o es ≢ stray → length es ≤ 1
viewed-length none [] h = omega arith
viewed-length none (e ∷ es) h = absurd (h refl)
viewed-length (some c) [] h = omega arith
viewed-length (some c) (e ∷ []) h = omega arith
viewed-length (some c) (e ∷ f ∷ es) h = absurd (h refl)

-- A reference under which nothing was asked for or credited has at most one deposit entry in the
-- ledger after any sequence of requests, notifications, rounds of reconciliation and the passing of
-- time, however often its payment is notified and whatever fails.
pub run-length :
    (registry : Names) (calls : List Action) (r : ℕ) (s : Db)
    → view r s ≡ absent
    → length (credits r (run registry calls s).books.ledger) ≤ 1
unfolding view
run-length registry calls r s a =
    let t = run registry calls s in
    viewed-length (lookup r t.cycles) (credits r t.books.ledger)
      (stays-Sane (run-Steps registry calls r s) (λ e. cc))
