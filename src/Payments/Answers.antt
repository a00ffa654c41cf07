-- ===== src/Payments/Answers.antt =====
-- What a provider's answer does, in applyProviderResult of
-- src/api/src/modules/payments/payments.service.ts: by its cases.
use iron_loot.Common.{
  ℕ, ◌+◌, ◌≡◌, refl, sym, ◌⊎◌, inl, inr, true, false, none, some, arith, ℤ, eq_of_parts,
}
use iron_loot.Exec.{ok, err, connection_failed}
use iron_loot.Table.{lookup, insert, lookup-insert_self}
use iron_loot.Payments.Rows.{
  PaymentProvider, WebhookResult, CycleOutcome, PaymentCycleStatus, PaymentCycle, Db,
  referenced_user, cycle_update,
}
use iron_loot.Payments.Cycle.{is_open, check_invariant, reopen_for_retry}
use iron_loot.Payments.Evaluation.{CycleDecision, decision}
use iron_loot.Payments.Decisions.{Refused, Settled, settled_cycle, settled_db, evaluate_cases}
use iron_loot.Payments.Credit.{act_on, apply_provider_result}
use iron_loot.Payments.Crediting.{Paid}
use iron_loot.Payments.Deposited.{Fails, Pays, Skips, credit_from_result_cases}

-- No money moves, and the cycle, if there is one, is closed from then on.
pub record Closes (provider : PaymentProvider) (result : WebhookResult) (s : Db) : Type 0 where
  pub decision_made : CycleDecision
  pub after : Db
  pub returns : apply_provider_result provider result s ≡ (ok decision_made, after)
  pub same_books : after.books ≡ s.books
  pub cycles :
      ((after.cycles ≡ s.cycles)
        × ((c : PaymentCycle)
            → lookup result.external_id s.cycles ≡ some c
            → is_open c.status ≡ false))
      ⊎ ((c d : PaymentCycle) × (lookup result.external_id s.cycles ≡ some c)
          × (after.cycles ≡ insert result.external_id d s.cycles)
          × (is_open d.status ≡ false))

-- An open cycle is settled, and its user is credited with the amount that was asked for.
pub record Credits (provider : PaymentProvider) (result : WebhookResult) (s : Db) : Type 0 where
  pub cycle : PaymentCycle
  pub decision_made : CycleDecision
  pub after : Db
  pub found : lookup result.external_id s.cycles ≡ some cycle
  pub waits : is_open cycle.status ≡ true
  pub returns : apply_provider_result provider result s ≡ (ok decision_made, after)
  pub cycles :
      after.cycles ≡ insert result.external_id (settled_cycle result s.books.now cycle) s.cycles
  pub paid : Paid cycle.user_id cycle.amount result.external_id s.books after.books

abbrev pub reopened_cycle : WebhookResult → ℕ → PaymentCycle → PaymentCycle
reopened_cycle result at c = record (settled_cycle result at c) {
  status = PaymentCycleStatus.requested;
  next_check_at = some (at + 60000);
}

-- The wallet cannot be credited: the call throws, and the cycle waits for the next attempt.
pub record Reopens (provider : PaymentProvider) (result : WebhookResult) (s : Db) : Type 0 where
  pub cycle : PaymentCycle
  pub after : Db
  pub found : lookup result.external_id s.cycles ≡ some cycle
  pub waits : is_open cycle.status ≡ true
  pub returns : apply_provider_result provider result s ≡ (err connection_failed, after)
  pub same_books : after.books ≡ s.books
  pub same_processed : after.processed ≡ s.processed
  pub cycles :
      after.cycles
      ≡ insert result.external_id
          (reopened_cycle result s.books.now cycle)
          (insert result.external_id (settled_cycle result s.books.now cycle) s.cycles)

module _ (k : ℕ) (c : PaymentCycle) (result : WebhookResult)
    (h : check_invariant k c result ≡ none) where
  agreed_user : {u : ℕ} → referenced_user k ≡ some u → u ≡ c.user_id
  unfolding check_invariant
  agreed_user e = ground arith

  agreed_amount : {x : ℤ} → result.amount ≡ some x → x ≡ c.amount
  unfolding check_invariant
  agreed_amount {x} e = eq_of_parts x c.amount (ground arith)

module _ (provider : PaymentProvider) (result : WebhookResult) (s : Db) where
  refused-Closes : Refused provider result s → Closes provider result s
  unfolding apply_provider_result act_on
  refused-Closes r = record {
    decision_made = r.decision_made;
    after = r.after;
    returns = ground (arith, r.returns, r.denied);
    same_books = r.same_books;
    cycles = r.cycles;
  }

  module _ (t : Settled provider result s) where
    abbrev pub settled_now : Db
    settled_now = settled_db provider result t.cycle s

    skipped-Closes : Skips provider result settled_now t.completed → Closes provider result s
    unfolding apply_provider_result act_on
    skipped-Closes w = record {
      decision_made = decision true CycleOutcome.processed (some result.external_id);
      after = w.after;
      returns = ground (arith, t.returns, w.returns);
      same_books = w.same_books;
      cycles =
          inr (t.cycle, settled_cycle result s.books.now t.cycle, t.found, w.same_cycles, refl);
    }

    pub paid-Credits : Pays provider result settled_now → Credits provider result s
    unfolding apply_provider_result act_on
    paid-Credits p = record {
      cycle = t.cycle;
      decision_made = decision true CycleOutcome.processed (some result.external_id);
      after = p.writes.after;
      found = t.found;
      waits = t.waits;
      returns = ground (arith, t.returns, p.writes.returns);
      cycles = p.writes.same_cycles;
      paid =
          rw
            (
              sym (agreed_user result.external_id t.cycle result t.agrees p.is_of.named),
              sym (agreed_amount result.external_id t.cycle result t.agrees p.is_of.told),
              p.writes.same_books,
            )
            p.paid;
    }

    reopen-after :
        (after : Db)
        → after.cycles ≡ settled_now.cycles
        → after.books ≡ s.books
        → reopen_for_retry result.external_id after ≡ (
          ok tt,
          record after {
            cycles =
                insert result.external_id
                  (reopened_cycle result s.books.now t.cycle)
                  settled_now.cycles;
          },
        )
    unfolding reopen_for_retry cycle_update
    reopen-after after e f = ground (
      arith,
      lookup-insert_self result.external_id (settled_cycle result s.books.now t.cycle) s.cycles,
    )

    pub failed-Reopens : Fails provider result settled_now t.completed → Reopens provider result s
    unfolding apply_provider_result act_on
    failed-Reopens (w, z) = record {
      cycle = t.cycle;
      after = record w.after {
        cycles =
            insert result.external_id (reopened_cycle result s.books.now t.cycle)
              settled_now.cycles;
      };
      found = t.found;
      waits = t.waits;
      returns =
          ground (arith, t.returns, w.returns, reopen-after w.after w.same_cycles w.same_books);
      same_books = w.same_books;
      same_processed = w.same_processed;
      cycles = refl;
    }

  pub apply_provider_result_cases :
      Closes provider result s ⊎ Credits provider result s ⊎ Reopens provider result s
  apply_provider_result_cases = elim (evaluate_cases provider result s) [
    | inl r ↦ inl (refused-Closes r)
    | inr t ↦ elim (credit_from_result_cases provider result (settled_now t) t.completed) [
      | inl p ↦ inr (inl (paid-Credits t p))
      | inr (inl w) ↦ inl (skipped-Closes t w)
      | inr (inr w) ↦ inr (inr (failed-Reopens t w))
    ]
  ]
