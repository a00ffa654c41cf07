-- ===== src/Wallet/Deposits.antt =====
-- What a deposit leaves: one entry more, and the user's balance higher by the amount.
use iron_loot.Common.{
  ℕ, ◌≡◌, refl, inl, inr, true, ◌∷◌, arith, ◌==◌, if◌then◌else◌, Option-cases, ℤ, pos, ◌+ℤ◌, ◌<ℤ◌,
}
use iron_loot.Exec.{ok}
use iron_loot.Table.{lookup, insert, lookup-insert_self}
use iron_loot.Wallet.Rows.{
  Wallet, Ledger, LedgerType, ReferenceType, Books, entry, asegurar_monedero, new_wallet,
}
use iron_loot.Wallet.Posting.{balance_of, balance_of-insert}
use iron_loot.Wallet.{deposit}

abbrev pub deposited : ℕ → ℤ → ℤ → ℕ → ReferenceType → ℕ → Ledger
deposited u amount before r kind at =
    entry u LedgerType.deposit amount before (before +ℤ amount) r kind at

pub record Deposited (u : ℕ) (amount : ℤ) (r : ℕ) (kind : ReferenceType) (s : Books) : Type 0 where
  pub wallet : Wallet
  pub books : Books
  pub returns :
      deposit u amount r kind s
      ≡ (ok (wallet, deposited u amount (balance_of u s.wallets) r kind s.now), books)
  pub ledger : books.ledger ≡ deposited u amount (balance_of u s.wallets) r kind s.now ∷ s.ledger
  pub balances :
      (j : ℕ)
      → balance_of j books.wallets
        ≡ (if j == u then balance_of u s.wallets +ℤ amount else balance_of j s.wallets)
  pub same_now : books.now ≡ s.now

pub deposit-Deposited :
    (u : ℕ) (amount : ℤ) (r : ℕ) (kind : ReferenceType) (s : Books)
    → pos 0 <ℤ amount
    → Deposited u amount r kind s
unfolding deposit asegurar_monedero
deposit-Deposited u amount r kind s p = elim (Option-cases (lookup u s.wallets)) [
  | inl e ↦
      let w : Wallet = record (new_wallet true) { balance = pos 0 +ℤ amount; is_active = true } in
      let t = insert u (new_wallet true) s.wallets in
      record {
        wallet = w;
        books = record s {
          wallets = insert u w t;
          ledger = deposited u amount (pos 0) r kind s.now ∷ s.ledger;
        };
        returns = ground (arith, lookup-insert_self u (new_wallet true) s.wallets);
        ledger = ground arith;
        balances = λ j.
            ground
              (arith, balance_of-insert u j w t, balance_of-insert u j (new_wallet true) s.wallets);
        same_now = refl;
      }
  | inr (w, e) ↦
      let w' : Wallet = record w { balance = w.balance +ℤ amount; is_active = true } in
      record {
        wallet = w';
        books = record s {
          wallets = insert u w' s.wallets;
          ledger = deposited u amount w.balance r kind s.now ∷ s.ledger;
        };
        returns = ground arith;
        ledger = ground arith;
        balances = λ j. ground (arith, balance_of-insert u j w' s.wallets);
        same_now = refl;
      }
]
