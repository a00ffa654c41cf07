-- ===== src/Payments/Decisions.antt =====
-- How a cycle answers a provider, in src/api/src/modules/payments/payment-cycle.service.ts: by its cases.
use iron_loot.Common.{
  ℕ, ◌≡◌, refl, ◌⊎◌, inl, inr, true, false, none, some, ◌∷◌, arith, Bool-cases, Option-cases,
}
use iron_loot.Exec.{ok}
use iron_loot.Table.{lookup, insert}
use iron_loot.Payments.Rows.{
  PaymentProvider, WebhookResult, PaymentCycleStatus, AnomalyReason, PaymentCycle, CycleOutcome,
  TraceStep, TraceOutcome, PaymentStatus, Db, cycle_update,
}
use iron_loot.Payments.Cycle.{
  is_open, is_completed, is_canonical, check_invariant, payment_row, write_payment_row,
  raise_refund, flag_anomaly,
}
use iron_loot.Payments.Evaluation.{
  CycleDecision, decision, answer_closed, answer_negative, answer_completed, evaluate,
}

-- The cycle is closed and nothing is to be credited: what was open is written as closed.
pub record Refused (provider : PaymentProvider) (result : WebhookResult) (s : Db) : Type 0 where
  pub decision_made : CycleDecision
  pub after : Db
  pub returns : evaluate provider result s ≡ (ok decision_made, after)
  pub denied : decision_made.should_credit ≡ false
  pub same_books : after.books ≡ s.books
  pub same_processed : after.processed ≡ s.processed
  pub cycles :
      ((after.cycles ≡ s.cycles)
        × ((c : PaymentCycle)
            → lookup result.external_id s.cycles ≡ some c
            → is_open c.status ≡ false))
      ⊎ ((c d : PaymentCycle) × (lookup result.external_id s.cycles ≡ some c)
          × (after.cycles ≡ insert result.external_id d s.cycles)
          × (is_open d.status ≡ false))

abbrev pub settled_cycle : WebhookResult → ℕ → PaymentCycle → PaymentCycle
settled_cycle result at c = record c {
  status = PaymentCycleStatus.settled;
  canonical_payment_id = some result.payment_id;
  responded_at = some at;
  settled_at = some at;
  next_check_at = none;
}

abbrev pub failed_cycle : WebhookResult → ℕ → PaymentCycle → PaymentCycle
failed_cycle result at c = record c {
  status = PaymentCycleStatus.failed;
  responded_at = some at;
  canonical_payment_id = some result.payment_id;
  next_check_at = none;
}

abbrev pub flagged_cycle : AnomalyReason → ℕ → PaymentCycle → PaymentCycle
flagged_cycle reason at c = record c {
  status = PaymentCycleStatus.anomaly;
  anomaly_reason = some reason;
  responded_at = some at;
  next_check_at = none;
}

-- The database once `result` has settled the cycle `c`.
abbrev pub settled_db : PaymentProvider → WebhookResult → PaymentCycle → Db → Db
settled_db provider result c s =
    let id = result.external_id in
    record s {
      cycles = insert id (settled_cycle result s.books.now c) s.cycles;
      events =
          record {
            cycle_id = some id;
            provider = provider;
            external_id = result.payment_id;
            reference = id;
            step = TraceStep.cycle_decision;
            outcome = TraceOutcome.decided CycleOutcome.processed;
          }
          ∷ s.events;
      payments =
          insert id (payment_row c provider result PaymentStatus.completed (lookup id s.payments))
            s.payments;
    }

-- The payment agrees with the request, which was open, and settles it.
pub record Settled (provider : PaymentProvider) (result : WebhookResult) (s : Db) : Type 0 where
  pub cycle : PaymentCycle
  pub found : lookup result.external_id s.cycles ≡ some cycle
  pub waits : is_open cycle.status ≡ true
  pub completed : is_completed result.status ≡ true
  pub agrees : check_invariant result.external_id cycle result ≡ none
  pub returns : evaluate provider result s ≡ (
    ok (decision true CycleOutcome.processed (some result.external_id)),
    settled_db provider result cycle s,
  )

module _ (provider : PaymentProvider) (result : WebhookResult) (s : Db) where
  orphan-Refused : lookup result.external_id s.cycles ≡ none → Refused provider result s
  unfolding evaluate
  orphan-Refused e = record {
    decision_made = decision false CycleOutcome.orphan none;
    after = (evaluate provider result s).1;
    returns = ground arith;
    denied = refl;
    same_books = ground arith;
    same_processed = ground arith;
    cycles = inl (ground arith, λ c q. cc);
  }

  module _ (c : PaymentCycle) (e : lookup result.external_id s.cycles ≡ some c) where
    closed-Refused : is_open c.status ≡ false → Refused provider result s
    unfolding evaluate answer_closed flag_anomaly raise_refund cycle_update
    closed-Refused q = elim (Bool-cases (is_canonical c.canonical_payment_id result.payment_id)) [
      | inl k ↦ record {
        decision_made = decision false CycleOutcome.duplicate (some result.external_id);
        after = (evaluate provider result s).1;
        returns = ground arith;
        denied = refl;
        same_books = ground arith;
        same_processed = ground arith;
        cycles = inl (ground arith, λ d f. ground arith);
      }
      | inr k ↦ record {
        decision_made = decision false CycleOutcome.cancelled (some result.external_id);
        after = (evaluate provider result s).1;
        returns = ground arith;
        denied = refl;
        same_books = ground arith;
        same_processed = ground arith;
        cycles =
            inr (c, flagged_cycle AnomalyReason.other_payment s.books.now c, e, ground arith, refl);
      }
    ]

    negative-Refused :
        is_open c.status ≡ true → is_completed result.status ≡ false → Refused provider result s
    unfolding evaluate answer_negative write_payment_row cycle_update
    negative-Refused q k = record {
      decision_made = decision false CycleOutcome.rejected (some result.external_id);
      after = (evaluate provider result s).1;
      returns = ground arith;
      denied = refl;
      same_books = ground arith;
      same_processed = ground arith;
      cycles = inr (c, failed_cycle result s.books.now c, e, ground arith, refl);
    }

    pub mismatch-Refused :
        (reason : AnomalyReason)
        → is_open c.status ≡ true
        → is_completed result.status ≡ true
        → check_invariant result.external_id c result ≡ some reason
        → Refused provider result s
    unfolding evaluate answer_completed flag_anomaly cycle_update
    mismatch-Refused reason q k m = record {
      decision_made = decision false CycleOutcome.anomaly (some result.external_id);
      after = (evaluate provider result s).1;
      returns = ground arith;
      denied = refl;
      same_books = ground arith;
      same_processed = ground arith;
      cycles = inr (c, flagged_cycle reason s.books.now c, e, ground arith, refl);
    }

    pub agreed-Settled :
        is_open c.status ≡ true
        → is_completed result.status ≡ true
        → check_invariant result.external_id c result ≡ none
        → Settled provider result s
    unfolding evaluate answer_completed cycle_update write_payment_row
    agreed-Settled q k m = record {
      cycle = c;
      found = e;
      waits = q;
      completed = k;
      agrees = m;
      returns = ground arith;
    }

  pub evaluate_cases : Refused provider result s ⊎ Settled provider result s
  evaluate_cases = elim (Option-cases (lookup result.external_id s.cycles)) [
    | inl e ↦ inl (orphan-Refused e)
    | inr (c, e) ↦ elim (Bool-cases (is_open c.status)) [
      | inr q ↦ inl (closed-Refused c e q)
      | inl q ↦ elim (Bool-cases (is_completed result.status)) [
        | inr k ↦ inl (negative-Refused c e q k)
        | inl k ↦ elim (Option-cases (check_invariant result.external_id c result)) [
          | inl m ↦ inr (agreed-Settled c e q k m)
          | inr (reason, m) ↦ inl (mismatch-Refused c e reason q k m)
        ]
      ]
    ]
  ]
