-- ===== src/Payments/Credit.antt =====
-- src/api/src/modules/payments/payments.service.ts: a confirmed deposit is credited to the wallet.
use iron_loot.Common.{
  ℕ, Bool, false, ◌&&◌, ◌||◌, not, Option, none, some, List, [], ◌∷◌, ◌==◌, if◌then◌else◌, ℤ, pos,
  ltb_ℤ,
}
use iron_loot.Exec.{
  Error, err, ⊤, Exec, pure, raise, gets, catch, modify, ◌>>=◌, ◌>>◌, attempt, connection_failed,
}
use iron_loot.Wallet.Rows.{Wallet, Ledger, ReferenceType, Books}
use iron_loot.Wallet.{deposit}
use iron_loot.Payments.Rows.{
  PaymentProvider, same_provider, WebhookResult, TraceStep, TraceOutcome, Db, referenced_user,
  event_create,
}
use iron_loot.Payments.Cycle.{is_completed, reopen_for_retry}
use iron_loot.Payments.Evaluation.{CycleDecision, evaluate}

-- A call of the wallet service.
abbrev pub on_books : {A : Type 0} → Exec Books A → Exec Db A
on_books m s = let (r, b) = m s.books in (r, record s { books = b })

-- The database may fail the attempt, and then nothing of it is written.
unfoldable pub deposit_now : ℕ → ℤ → ℕ → Exec Db (Wallet × Ledger)
deposit_now user amount reference s = elim s.outages [
  | [] ↦ on_books (deposit user amount reference ReferenceType.deposit) s
  | fails ∷ rest ↦
      if fails
      then (err connection_failed, record s { outages = rest })
      else on_books (deposit user amount reference ReferenceType.deposit)
          (record s { outages = rest })
]

abbrev trace_credit : PaymentProvider → ℕ → TraceOutcome → Exec Db ⊤
trace_credit provider reference outcome = event_create (record {
  cycle_id = none;
  provider = provider;
  external_id = 0;
  reference = reference;
  step = TraceStep.wallet_credited;
  outcome = outcome;
})

unfoldable pub credit_wallet : ℕ → ℤ → ℕ → PaymentProvider → Exec Db ⊤
credit_wallet user amount reference provider =
    catch (deposit_now user amount reference >> trace_credit provider reference TraceOutcome.fine)
      (λ e. trace_credit provider reference TraceOutcome.failed >> raise e)

-- `@@unique([provider, paymentId])`
unfoldable pub is_processed : PaymentProvider → ℕ → List (PaymentProvider × ℕ) → Bool
is_processed provider payment_id [] = false
is_processed provider payment_id ((p, k) ∷ ps) =
    (same_provider provider p && (payment_id == k)) || is_processed provider payment_id ps

unfoldable pub without_payment :
    PaymentProvider → ℕ → List (PaymentProvider × ℕ) → List (PaymentProvider × ℕ)
without_payment provider payment_id [] = []
without_payment provider payment_id ((p, k) ∷ ps) =
    let rest = without_payment provider payment_id ps in
    if same_provider provider p && (payment_id == k) then rest else (p, k) ∷ rest

abbrev reserve : PaymentProvider → ℕ → Exec Db ⊤
reserve provider payment_id =
    modify (λ s. record s { processed = (provider, payment_id) ∷ s.processed })

abbrev free_payment : PaymentProvider → ℕ → Exec Db ⊤
free_payment provider payment_id =
    modify (λ s. record s { processed = without_payment provider payment_id s.processed })

-- The payment is reserved, credited, and freed again if crediting it throws.
unfoldable pub credit_reserved : PaymentProvider → WebhookResult → ℕ → ℤ → Exec Db ⊤
credit_reserved provider result user amount = do
  reserve provider result.payment_id
  catch (credit_wallet user amount result.external_id provider)
      (λ e. do free_payment provider result.payment_id; raise e)

-- Without a payment's identifier nothing is reserved, and an exception is swallowed. A payment that
-- is on record has been credited.
unfoldable pub credit_once : PaymentProvider → WebhookResult → ℕ → ℤ → Exec Db ⊤
credit_once provider result user amount =
    if result.payment_id == 0
    then attempt (credit_wallet user amount result.external_id provider)
    else do
      known ← gets (λ s. is_processed provider result.payment_id s.processed)
      if known then pure tt else credit_reserved provider result user amount

abbrev pub or_zero : Option ℤ → ℤ
or_zero none = pos 0
or_zero (some x) = x

unfoldable pub credit_from_result : PaymentProvider → WebhookResult → Exec Db ⊤
credit_from_result provider result =
    if is_completed result.status
    then elim (referenced_user result.external_id) [
      | none ↦ pure tt
      | some user ↦
          let amount = or_zero result.amount in
          if ltb_ℤ (pos 0) amount then credit_once provider result user amount else pure tt
    ]
    else pure tt

-- If crediting throws, the cycle is opened again for the next attempt.
abbrev pub reopened : {A : Type 0} → Option ℕ → Error → Exec Db A
reopened none e = raise e
reopened (some id) e = reopen_for_retry id >> raise e

-- What follows on the cycle's decision.
unfoldable pub act_on : PaymentProvider → WebhookResult → CycleDecision → Exec Db CycleDecision
act_on provider result d =
    if not d.should_credit
    then pure d
    else (catch (credit_from_result provider result) (reopened d.cycle_id) >> pure d)

unfoldable pub apply_provider_result : PaymentProvider → WebhookResult → Exec Db CycleDecision
apply_provider_result provider result = do d ← evaluate provider result; act_on provider result d
