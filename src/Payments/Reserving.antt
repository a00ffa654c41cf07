-- ===== src/Payments/Reserving.antt =====
-- A payment is credited once: the cases of creditOnce in src/api/src/modules/payments/payments.service.ts.
use iron_loot.Common.{
  ℕ, ◌≡◌, refl, inl, inr, Bool, true, false, ◌||◌, not, List, ◌∷◌, arith, ◌==◌, if◌then◌else◌,
  Bool-cases, ℤ, pos, ◌<ℤ◌,
}
use iron_loot.Exec.{ok, err, connection_failed}
use iron_loot.Wallet.Rows.{Books}
use iron_loot.Payments.Rows.{PaymentProvider, WebhookResult, Db}
use iron_loot.Payments.Credit.{is_processed, credit_reserved, credit_once}
use iron_loot.Payments.Crediting.{
  Paid, Writes, credit_wallet-fails, credit_wallet-pays, fails_next, without_payment-new,
}

-- The payment's identifier as the database keeps it from then on: none is kept of the empty one.
abbrev pub kept : PaymentProvider → ℕ → List (PaymentProvider × ℕ) → List (PaymentProvider × ℕ)
kept provider k ps = if k == 0 then ps else (provider, k) ∷ ps

-- A payment that may be credited: it has no identifier, or one that is not on record.
abbrev pub is_new : PaymentProvider → ℕ → List (PaymentProvider × ℕ) → Bool
is_new provider k ps = (k == 0) || not (is_processed provider k ps)

module _ (provider : PaymentProvider) (result : WebhookResult) (user : ℕ) (amount : ℤ) (s : Db)
    (fresh : is_new provider result.payment_id s.processed ≡ true) where
  pub credit_once-pays :
      fails_next s ≡ false
      → pos 0 <ℤ amount
      → (books : Books) × Paid user amount result.external_id s.books books
        × Writes
            (credit_once provider result user amount)
            s
            (ok tt)
            books
            (kept provider result.payment_id s.processed)
  unfolding credit_once credit_reserved
  credit_once-pays h p = elim (Bool-cases (result.payment_id == 0)) [
    | inl z ↦
        let (books, paid, w) = credit_wallet-pays user amount result.external_id provider s h p in
        (
          books,
          paid,
          record {
            after = w.after;
            returns = ground (arith, w.returns);
            same_cycles = w.same_cycles;
            same_books = w.same_books;
            same_processed = ground (arith, w.same_processed);
          },
        )
    | inr z ↦
        let reserved : Db = record s { processed = (provider, result.payment_id) ∷ s.processed } in
        let (books, paid, w) =
          credit_wallet-pays user amount result.external_id provider reserved h p in
        (
          books,
          paid,
          record {
            after = w.after;
            returns = ground (arith, w.returns);
            same_cycles = w.same_cycles;
            same_books = w.same_books;
            same_processed = ground (arith, w.same_processed);
          },
        )
  ]

  -- With an identifier the exception comes back, and the payment can be credited again.
  pub credit_once-fails :
      fails_next s ≡ true
      → (result.payment_id == 0) ≡ false
      → Writes
          (credit_once provider result user amount)
          s
          (err connection_failed)
          s.books
          s.processed
  unfolding credit_once credit_reserved
  credit_once-fails h z =
      let reserved : Db = record s { processed = (provider, result.payment_id) ∷ s.processed } in
      let w = credit_wallet-fails user amount result.external_id provider reserved h in
      let ps = without_payment-new provider result.payment_id s.processed (ground arith) in
      record {
        after = record w.after { processed = s.processed };
        returns = ground (arith, w.returns, w.same_processed, ps);
        same_cycles = w.same_cycles;
        same_books = w.same_books;
        same_processed = refl;
      }

  pub credit_once-swallows :
      fails_next s ≡ true
      → (result.payment_id == 0) ≡ true
      → Writes (credit_once provider result user amount) s (ok tt) s.books s.processed
  unfolding credit_once
  credit_once-swallows h z =
      let w = credit_wallet-fails user amount result.external_id provider s h in
      record {
        after = w.after;
        returns = ground (arith, w.returns);
        same_cycles = w.same_cycles;
        same_books = w.same_books;
        same_processed = w.same_processed;
      }
