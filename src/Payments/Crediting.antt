-- ===== src/Payments/Crediting.antt =====
-- How a deposit is credited, in src/api/src/modules/payments/payments.service.ts: by its cases.
use iron_loot.Common.{
  ℕ, ◌≡◌, refl, Bool, true, false, List, [], ◌∷◌, arith, ◌==◌, if◌then◌else◌, ℤ, pos, ◌+ℤ◌, ◌<ℤ◌,
}
use iron_loot.Exec.{Result, ok, err, Exec, connection_failed}
use iron_loot.Wallet.Rows.{ReferenceType, Books}
use iron_loot.Wallet.Posting.{balance_of}
use iron_loot.Wallet.Deposits.{deposited, deposit-Deposited}
use iron_loot.Payments.Rows.{PaymentProvider, same_provider, Db}
use iron_loot.Payments.Credit.{deposit_now, credit_wallet, is_processed, without_payment}

-- The wallet holds `amount` more, with one entry that says so.
pub record Paid (user : ℕ) (amount : ℤ) (reference : ℕ) (s after : Books) : Type 0 where
  pub ledger :
      after.ledger
      ≡ deposited user amount (balance_of user s.wallets) reference ReferenceType.deposit s.now
        ∷ s.ledger
  pub balances :
      (j : ℕ)
      → balance_of j after.wallets
        ≡ (if j == user then balance_of user s.wallets +ℤ amount else balance_of j s.wallets)

-- A call that keeps the cycles: how it ends, the books and the payments on record that it leaves.
pub record Writes {A : Type 0} (m : Exec Db A) (s : Db) (r : Result A) (books : Books)
    (processed : List (PaymentProvider × ℕ)) : Type 0 where
  pub after : Db
  pub returns : m s ≡ (r, after)
  pub same_cycles : after.cycles ≡ s.cycles
  pub same_books : after.books ≡ books
  pub same_processed : after.processed ≡ processed

-- Whether the next attempt to credit a wallet is failed.
abbrev pub fails_next : Db → Bool
fails_next s = elim s.outages [ [] ↦ false | fails ∷ rest ↦ fails ]

module _ (user : ℕ) (amount : ℤ) (reference : ℕ) (provider : PaymentProvider) where
  pub credit_wallet-fails :
      (s : Db)
      → fails_next s ≡ true
      → Writes
          (credit_wallet user amount reference provider)
          s
          (err connection_failed)
          s.books
          s.processed
  unfolding credit_wallet deposit_now
  credit_wallet-fails s h = record {
    after = (credit_wallet user amount reference provider s).1;
    returns = ground arith;
    same_cycles = ground arith;
    same_books = ground arith;
    same_processed = ground arith;
  }

  pub credit_wallet-pays :
      (s : Db)
      → fails_next s ≡ false
      → pos 0 <ℤ amount
      → (books : Books) × Paid user amount reference s.books books
        × Writes (credit_wallet user amount reference provider) s (ok tt) books s.processed
  unfolding credit_wallet deposit_now
  credit_wallet-pays s h p =
      let d = deposit-Deposited user amount reference ReferenceType.deposit s.books p in
      (
        d.books,
        record { ledger = d.ledger; balances = d.balances },
        record {
          after = (credit_wallet user amount reference provider s).1;
          returns = ground (arith, d.returns);
          same_cycles = ground (arith, d.returns);
          same_books = ground (arith, d.returns);
          same_processed = ground (arith, d.returns);
        },
      )

without_payment-none :
    (provider : PaymentProvider) (k : ℕ) (ps : List (PaymentProvider × ℕ))
    → is_processed provider k ps ≡ false
    → without_payment provider k ps ≡ ps
unfolding is_processed without_payment
without_payment-none provider k [] h = refl
without_payment-none provider k ((p, j) ∷ ps) h = ground (arith, without_payment-none provider k ps)

same_provider_self : (p : PaymentProvider) → same_provider p p ≡ true
same_provider_self p = ground arith

pub without_payment-new :
    (provider : PaymentProvider) (k : ℕ) (ps : List (PaymentProvider × ℕ))
    → is_processed provider k ps ≡ false
    → without_payment provider k ((provider, k) ∷ ps) ≡ ps
unfolding without_payment
without_payment-new provider k ps h =
    ground (arith, without_payment-none provider k ps h, same_provider_self provider)
