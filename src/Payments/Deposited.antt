-- ===== src/Payments/Deposited.antt =====
-- What a completed payment is credited for, in src/api/src/modules/payments/payments.service.ts.
use iron_loot.Common.{
  ℕ, ◌≡◌, refl, ◌∙◌, ◌⊎◌, inl, inr, true, false, none, some, List, arith, ◌==◌, Bool-cases,
  Option-cases, ℤ, pos, ◌<ℤ◌, ltb_ℤ,
}
use iron_loot.Exec.{Result, ok, err, ⊤, connection_failed}
use iron_loot.Wallet.Rows.{Books}
use iron_loot.Payments.Rows.{PaymentProvider, WebhookResult, Db, referenced_user}
use iron_loot.Payments.Cycle.{is_completed}
use iron_loot.Payments.Credit.{credit_once, or_zero, credit_from_result}
use iron_loot.Payments.Crediting.{Paid, Writes, fails_next}
use iron_loot.Payments.Reserving.{
  credit_once-fails, credit_once-pays, credit_once-swallows, is_new, kept,
}

-- The deposit that a result is of: the user that its reference names and its amount.
pub record IsDepositOf (result : WebhookResult) (user : ℕ) (amount : ℤ) : Type 0 where
  pub named : referenced_user result.external_id ≡ some user
  pub told : result.amount ≡ some amount
  pub positive : pos 0 <ℤ amount

pub record Pays (provider : PaymentProvider) (result : WebhookResult) (s : Db) : Type 0 where
  pub user : ℕ
  pub amount : ℤ
  pub is_of : IsDepositOf result user amount
  pub books : Books
  pub paid : Paid user amount result.external_id s.books books
  pub writes :
      Writes
        (credit_from_result provider result)
        s
        (ok tt)
        books
        (kept provider result.payment_id s.processed)

module _ (provider : PaymentProvider) (result : WebhookResult) (s : Db)
    (c : is_completed result.status ≡ true) where
  abbrev pub Skips : Type 0
  Skips = Writes (credit_from_result provider result) s (ok tt) s.books s.processed

  abbrev pub Fails : Type 0
  Fails =
      Writes (credit_from_result provider result) s (err connection_failed) s.books s.processed
      × ((result.payment_id == 0) ≡ false)

  skips-unnamed : referenced_user result.external_id ≡ none → Skips
  unfolding credit_from_result
  skips-unnamed e = record {
    after = s;
    returns = ground arith;
    same_cycles = refl;
    same_books = refl;
    same_processed = refl;
  }

  skips-unpaid :
      (u : ℕ)
      → referenced_user result.external_id ≡ some u
      → ltb_ℤ (pos 0) (or_zero result.amount) ≡ false
      → Skips
  unfolding credit_from_result
  skips-unpaid u e h = record {
    after = s;
    returns = ground arith;
    same_cycles = refl;
    same_books = refl;
    same_processed = refl;
  }

  module _ (u : ℕ) (x : ℤ) (d : IsDepositOf result u x) where
    credit_from_result-once :
        credit_from_result provider result s ≡ credit_once provider result u x s
    unfolding credit_from_result
    credit_from_result-once = ground (arith, d.named, d.told, d.positive)

    skips-known : is_new provider result.payment_id s.processed ≡ false → Skips
    unfolding credit_once
    skips-known k = record {
      after = s;
      returns = credit_from_result-once ∙ ground arith;
      same_cycles = refl;
      same_books = refl;
      same_processed = refl;
    }

    pub once-Writes :
        {r : Result ⊤} {b : Books} {ps : List (PaymentProvider × ℕ)}
        → Writes (credit_once provider result u x) s r b ps
        → Writes (credit_from_result provider result) s r b ps
    once-Writes w = record {
      after = w.after;
      returns = credit_from_result-once ∙ w.returns;
      same_cycles = w.same_cycles;
      same_books = w.same_books;
      same_processed = w.same_processed;
    }

    -- A payment that is not on record.
    deposit_cases :
        is_new provider result.payment_id s.processed ≡ true
        → Pays provider result s ⊎ Skips ⊎ Fails
    deposit_cases f = elim (Bool-cases (fails_next s)) [
      | inr h ↦
          let (books, paid, w) = credit_once-pays provider result u x s f h d.positive in
          inl (record {
            user = u;
            amount = x;
            is_of = d;
            books = books;
            paid = paid;
            writes = once-Writes w;
          })
      | inl h ↦ elim (Bool-cases (result.payment_id == 0)) [
        | inl z ↦ inr (inl (once-Writes (credit_once-swallows provider result u x s f h z)))
        | inr z ↦ inr (inr (once-Writes (credit_once-fails provider result u x s f h z), z))
      ]
    ]

  pub credit_from_result_cases : Pays provider result s ⊎ Skips ⊎ Fails
  credit_from_result_cases = elim (Option-cases (referenced_user result.external_id)) [
    | inl e ↦ inr (inl (skips-unnamed e))
    | inr (u, e) ↦ elim (Bool-cases (ltb_ℤ (pos 0) (or_zero result.amount))) [
      | inr h ↦ inr (inl (skips-unpaid u e h))
      | inl h ↦ elim (Option-cases result.amount) [
        | inl a ↦ absurd (ground arith)
        | inr (x, a) ↦
            let d : IsDepositOf result u x = record {
              named = e;
              told = a;
              positive = ground arith;
            } in
            elim (Bool-cases (is_new provider result.payment_id s.processed)) [
              | inl f ↦ deposit_cases u x d f
              | inr f ↦ inr (inl (skips-known u x d f))
            ]
      ]
    ]
  ]
