-- ===== src/Wallet/Payouts.antt =====
-- What a withdrawal takes from a wallet, and what a rejected one gives back.
use iron_loot.Common.{ℕ, ◌≡◌, false, none, some, arith, ℤ, pos, ◌+ℤ◌, ◌-ℤ◌, ◌≤ℤ◌, ◌<ℤ◌}
use iron_loot.Exec.{ok}
use iron_loot.Table.{lookup, insert}
use iron_loot.Wallet.Rows.{
  Wallet, LedgerType, ReferenceType, Books, entry, asegurar_monedero, new_wallet,
}
use iron_loot.Wallet.Effects.{posted}
use iron_loot.Wallet.{Balance, get_balance, get_wallet, withdraw, refund_withdrawal}

abbrev pub moved_by : Wallet → ℤ → Wallet
moved_by w balance = record w { balance = balance }

abbrev pub paid_out : ℕ → ℤ → ℕ → Wallet → Books → Books
paid_out u amount r w s =
    let after = w.balance -ℤ amount in
    posted s u (moved_by w after)
      (entry u LedgerType.withdrawal amount w.balance after r ReferenceType.withdrawal s.now)

abbrev pub paid_back : ℕ → ℤ → ℕ → Wallet → Books → Books
paid_back u amount r w s =
    let after = w.balance +ℤ amount in
    posted s u (moved_by w after)
      (entry u LedgerType.adjustment amount w.balance after r ReferenceType.withdrawal_refund s.now)

module _ (u : ℕ) (amount : ℤ) (r : ℕ) (w : Wallet) (s : Books)
    (e : lookup u s.wallets ≡ some w) where
  pub withdraw_covered :
      pos 0 <ℤ amount
      → amount ≤ℤ w.balance
      → withdraw u amount r s ≡ (
        ok (
          moved_by w (w.balance -ℤ amount),
          entry u LedgerType.withdrawal amount w.balance
              (w.balance -ℤ amount)
              r
              ReferenceType.withdrawal
              s.now,
        ),
        paid_out u amount r w s,
      )
  unfolding withdraw
  withdraw_covered p q = ground arith

  pub refund_withdrawal_found : refund_withdrawal u amount r s ≡ (ok tt, paid_back u amount r w s)
  unfolding refund_withdrawal
  refund_withdrawal_found = ground arith

abbrev pub shown : Wallet → Balance
shown w = record {
  available = w.balance;
  held = w.held_funds;
  pending = w.pending_balance;
  is_active = w.is_active;
}

pub get_balance_found :
    (u : ℕ) (w : Wallet) (s : Books)
    → lookup u s.wallets ≡ some w
    → get_balance u s ≡ (ok (shown w), s)
unfolding get_balance get_wallet asegurar_monedero
get_balance_found u w s e = ground arith

pub get_balance_new :
    (u : ℕ) (s : Books)
    → lookup u s.wallets ≡ none
    → get_balance u s ≡ (
      ok (shown (new_wallet false)),
      record s { wallets = insert u (new_wallet false) s.wallets },
    )
unfolding get_balance get_wallet asegurar_monedero
get_balance_new u s e = ground arith
