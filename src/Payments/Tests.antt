-- ===== src/Payments/Tests.antt =====
-- Runs of src/api/src/modules/payments on concrete deposits.
use iron_loot.Common.{
  ℕ, ◌+◌, ◌≤◌, ◌≡◌, refl, true, false, Option, none, some, List, [], ◌∷◌, arith, ◌==◌,
  if◌then◌else◌, ℤ, pos, ◌+ℤ◌, length,
}
use iron_loot.Exec.{ok, err, connection_failed}
use iron_loot.Table.{lookup}
use iron_loot.Wallet.Rows.{Books}
use iron_loot.Wallet.Posting.{balance_of}
use iron_loot.Payments.Rows.{
  unset, PaymentProvider, WebhookResult, WebhookStatus, CycleOutcome, AnomalyReason,
  PaymentCycleStatus, PaymentCycle, mxn, Db, referenced_user,
}
use iron_loot.Payments.Registry.{Name, Names, Adapter, by_key}
use iron_loot.Payments.Cycle.{check_invariant}
use iron_loot.Payments.Evaluation.{CycleDecision, decision}
use iron_loot.Payments.Decisions.{settled_cycle, failed_cycle}
use iron_loot.Payments.Providers.{StripeSession, stripe_handle_webhook}
use iron_loot.Payments.Crediting.{fails_next}
use iron_loot.Payments.Rows.{cycle_update}
use iron_loot.Payments.Cycle.{write_payment_row, reopen_for_retry}
use iron_loot.Payments.Evaluation.{evaluate, answer_completed}
use iron_loot.Payments.Credit.{
  act_on, credit_from_result, credit_once, credit_reserved, credit_wallet, deposit_now,
  without_payment,
}
use iron_loot.Payments.Credit.{apply_provider_result, is_processed}
use iron_loot.Payments.Promises.{credits, view, Steps, absent}
use iron_loot.Payments.Runs.{Action, initiate, notify, reconcile, wait, run, run-Steps, run-length}
use iron_loot.Payments.Laws.{
  Agrees, IsCredited, apply_provider_result-IsCredited, apply_provider_result_retried,
}
use iron_loot.Payments.Anomalies.{apply_provider_result-pending, redeliver, redeliver-refunds}

-- User 7 asks at 100, for five pesos.
abbrev reference : ℕ
reference = 68056473384187692692674921486353642291214

abbrev told : Option ℤ → ℕ → WebhookResult
told amount payment_id = record {
  payment_id = payment_id;
  external_id = reference;
  status = WebhookStatus.completed;
  amount = amount;
}

abbrev paid_five : WebhookResult
paid_five = told (some (pos 500)) 31

abbrev paypal_name : Name
paypal_name = 112 ∷ 97 ∷ 121 ∷ 112 ∷ 97 ∷ 108 ∷ []

abbrev paypal : Adapter
paypal = record {
  provider = PaymentProvider.paypal;
  key = 80 ∷ 65 ∷ 89 ∷ 80 ∷ 65 ∷ 76 ∷ [];
  aliases = [];
  check_status = true;
  create_payment = λ r x. ok (some 9);
  handle_webhook = λ payload. ok (some paid_five);
  find_payment = none;
}

abbrev registry : Names
registry = by_key (paypal ∷ [])

abbrev empty_books : Books
empty_books = record { wallets = []; ledger = []; now = 100 }

abbrev empty_db : Db
empty_db = record {
  cycles = [];
  events = [];
  payments = [];
  refunds = [];
  processed = [];
  outages = true ∷ false ∷ [];
  payment_expiration_hours = unset;
  books = empty_books;
}

abbrev calls : List Action
calls =
    initiate 7 (pos 500) PaymentProvider.paypal paypal_name
    ∷ wait 50
    ∷ notify paypal_name 1
    ∷ notify paypal_name 1
    ∷ notify paypal_name 1
    ∷ reconcile
    ∷ []

run-Steps_example : Steps (view reference empty_db) (view reference (run registry calls empty_db))
run-Steps_example = run-Steps registry calls reference empty_db

nothing_asked : view reference empty_db ≡ absent
unfolding view credits
nothing_asked = refl

run-length_example : length (credits reference (run registry calls empty_db).books.ledger) ≤ 1
run-length_example = run-length registry calls reference empty_db nothing_asked

-- The first notification's credit is failed, the second one's is made, the third is a duplicate.
abbrev request : PaymentCycle
request = record {
  provider = PaymentProvider.paypal;
  user_id = 7;
  amount = pos 500;
  currency = mxn;
  provider_ref = some 9;
  status = PaymentCycleStatus.requested;
  canonical_payment_id = none;
  anomaly_reason = none;
  requested_at = 100;
  responded_at = none;
  settled_at = none;
  next_check_at = some 60100;
  check_count = 0;
}

abbrev asked_db : Db
asked_db = record empty_db {
  cycles = (reference, request) ∷ [];
  outages = [];
  payment_expiration_hours = unset;
  books = record empty_books { now = 60200 };
}

names_seven : referenced_user reference ≡ some 7
unfolding referenced_user
names_seven = refl

request-Agrees :
    (s : Db)
    → lookup reference s.cycles ≡ some request
    → is_processed PaymentProvider.paypal 31 s.processed ≡ false
    → Agrees PaymentProvider.paypal paid_five request s
request-Agrees s e h = record {
  found = e;
  waits = refl;
  completed = refl;
  in_pesos = refl;
  named = names_seven;
  told = refl;
  positive = omega arith;
  fresh = rw h refl;
}

none_processed : is_processed PaymentProvider.paypal 31 [] ≡ false
unfolding is_processed
none_processed = refl

apply_provider_result-IsCredited_example :
    (d : CycleDecision) × (after : Db) × (apply_provider_result PaymentProvider.paypal paid_five
        asked_db
      ≡ (ok d, after))
    × IsCredited paid_five request asked_db after
apply_provider_result-IsCredited_example =
    apply_provider_result-IsCredited PaymentProvider.paypal paid_five request asked_db
      (request-Agrees asked_db refl none_processed) refl

abbrev failing_db : Db
failing_db = record asked_db { outages = true ∷ [] }

then_up : fails_next (apply_provider_result PaymentProvider.paypal paid_five failing_db).1 ≡ false
unfolding apply_provider_result act_on evaluate answer_completed check_invariant cycle_update
    write_payment_row credit_from_result credit_once credit_reserved credit_wallet deposit_now
    referenced_user is_processed without_payment reopen_for_retry
then_up = refl

apply_provider_result_retried_example :
    (d : CycleDecision) × (failed after : Db) × (apply_provider_result PaymentProvider.paypal
        paid_five failing_db
      ≡ (err connection_failed, failed))
    × (failed.books ≡ failing_db.books)
    × (apply_provider_result PaymentProvider.paypal paid_five failed ≡ (ok d, after))
    × ((j : ℕ)
        → balance_of j after.books.wallets ≡ (
            if j == 7
            then balance_of 7 failing_db.books.wallets +ℤ pos 500
            else balance_of j failing_db.books.wallets))
apply_provider_result_retried_example =
    apply_provider_result_retried PaymentProvider.paypal paid_five request failing_db
      (request-Agrees failing_db refl none_processed) refl refl then_up

-- Four pesos were paid instead of five.
differs :
    check_invariant reference request (told (some (pos 400)) 31) ≡ some AnomalyReason.other_amount
unfolding check_invariant
differs = refl

redeliver-refunds_example :
    length (redeliver 4 PaymentProvider.paypal (told (some (pos 400)) 31) asked_db).refunds
    ≡ 3 + length asked_db.refunds
redeliver-refunds_example =
    redeliver-refunds PaymentProvider.paypal (told (some (pos 400)) 31) request asked_db refl refl
      refl AnomalyReason.other_amount 3 differs refl

abbrev settled : PaymentCycle
settled = settled_cycle paid_five 60200 request

abbrev settled_then : Db
settled_then = record asked_db { cycles = (reference, settled) ∷ [] }

-- Five pesos in cash are first in process and then there.
apply_provider_result-pending_example :
    (after : Db) × (apply_provider_result PaymentProvider.mercado_pago paid_five
        (apply_provider_result PaymentProvider.mercado_pago
          (record paid_five { status = WebhookStatus.pending })
          asked_db).1
      ≡ (ok (decision false CycleOutcome.duplicate (some reference)), after))
    × (after.books ≡ asked_db.books)
    × (lookup reference after.cycles
        ≡ some (failed_cycle (record paid_five { status = WebhookStatus.pending }) 60200 request))
apply_provider_result-pending_example =
    apply_provider_result-pending PaymentProvider.mercado_pago
      (record paid_five { status = WebhookStatus.pending }) request paid_five asked_db refl refl
      refl refl refl

abbrev session : StripeSession
session = record { id = 77; client_reference_id = reference; amount_total = some (pos 500) }

abbrev session_result : WebhookResult
session_result = record {
  payment_id = reference;
  external_id = 77;
  status = WebhookStatus.completed;
  amount = some (pos 500);
}

is_read : stripe_handle_webhook true session ≡ some session_result
unfolding stripe_handle_webhook
is_read = refl
