-- ===== src/Wallet.antt =====
-- src/api/src/modules/wallet/wallet.service.ts, method by method, over the rows of Wallet/Rows.
pub mod Rows
pub mod Sales
pub mod Posting
pub mod Effects
pub mod CallEffects
pub mod SaleEffects
pub mod Fees
pub mod Runs
pub mod Cases
pub mod Payouts
pub mod Deposits
pub mod ReversalEffects
mod Tests
use iron_loot.Common.{
  ℕ, zero, suc, ◌+◌, ◌-◌, ◌*◌, ◌/◌, ◌%◌, ◌≤◌, ◌<◌, ◌≡◌, refl, sym, ap, ◌∙◌, ◌≢◌, ◌⊎◌, inl, inr,
  Bool, true, false, ◌&&◌, ◌||◌, not, Option, none, some, List, [], ◌∷◌, ◌++◌, map, arith, ltb, leb,
  ◌==◌, if◌then◌else◌, ==_iff, Bool-cases, Option-cases, ℤ, pos, negsuc, pos_part, neg_part, sub_ℕ,
  ◌+ℤ◌, ◌-ℤ◌, ◌≤ℤ◌, ◌<ℤ◌, ltb_ℤ, leb_ℤ, min_ℤ, max_ℤ, +ℤ_parts, -ℤ_parts, eq_of_parts, int_laws,
  All, length, select, find_first,
}
use iron_loot.Exec.{
  Error, Result, ok, err, ⊤, Exec, pure, raise, gets, or_raise, settle, transaction, recover, catch,
  raise_if, modify, continue, ◌>>=◌, ◌>>◌, attempt, not_found, bad_request, forbidden, validation,
  insufficient_balance, auction_not_found, auction_not_active, bid_too_low, bid_on_own_auction,
  order_not_found, user_not_found, unique_violation,
}
use iron_loot.Table.{Table, lookup, insert, lookup-insert, lookup-insert_self, lookup-insert_ne}
use iron_loot.Core.WalletCalculation.{can_lock_funds, calculate_new_held_funds}
use Rows.{
  Wallet, Ledger, LedgerType, ReferenceType, Books, asegurar_monedero, bloquear_monedero,
  require_wallet, ledger_create, wallet_update, entry,
}

abbrev now : Exec Books ℕ
now = gets (λ s. s.now)

unfoldable pub get_wallet : ℕ → Exec Books Wallet
get_wallet user = asegurar_monedero user false

pub record Balance : Type 0 where
  pub available : ℤ
  pub held : ℤ
  pub pending : ℤ
  pub is_active : Bool

unfoldable pub get_balance : ℕ → Exec Books Balance
unfolding get_wallet
get_balance user = do
  w ← get_wallet user
  pure (record {
    available = w.balance;
    held = w.held_funds;
    pending = w.pending_balance;
    is_active = w.is_active;
  })

unfoldable pub refund_withdrawal : ℕ → ℤ → ℕ → Exec Books ⊤
refund_withdrawal user amount reference = transaction do
  w ← require_wallet user
  at ← now
  let after = w.balance +ℤ amount
  ledger_create (
      entry user LedgerType.adjustment amount w.balance after reference
        ReferenceType.withdrawal_refund at)
  wallet_update user (record w { balance = after })

unfoldable pub deposit : ℕ → ℤ → ℕ → ReferenceType → Exec Books (Wallet × Ledger)
deposit user amount reference reference_kind = do
  raise_if (leb_ℤ amount (pos 0)) bad_request
  asegurar_monedero user true
  transaction do
    w ← require_wallet user
    at ← now
    let after = w.balance +ℤ amount
    let e = entry user LedgerType.deposit amount w.balance after reference reference_kind at
    let w' : Wallet = record w { balance = after; is_active = true }
    ledger_create e
    wallet_update user w'
    pure (w', e)

unfoldable pub withdraw : ℕ → ℤ → ℕ → Exec Books (Wallet × Ledger)
withdraw user amount reference = do
  raise_if (leb_ℤ amount (pos 0)) bad_request
  transaction do
    w ← require_wallet user
    raise_if (ltb_ℤ w.balance amount) insufficient_balance
    at ← now
    let after = w.balance -ℤ amount
    let e =
        entry user LedgerType.withdrawal amount w.balance after reference ReferenceType.withdrawal
          at
    let w' : Wallet = record w { balance = after }
    ledger_create e
    wallet_update user w'
    pure (w', e)

unfoldable pub hold_funds : ℕ → ℤ → ℕ → Exec Books Wallet
unfolding calculate_new_held_funds
hold_funds user amount reference = do
  raise_if (leb_ℤ amount (pos 0)) bad_request
  transaction do
    w ← require_wallet user
    raise_if (not w.is_active) bad_request
    raise_if (not (can_lock_funds w.balance (pos 0) amount)) insufficient_balance
    at ← now
    let after = w.balance -ℤ amount
    let w' : Wallet = record w {
      balance = after;
      held_funds = calculate_new_held_funds w.held_funds amount;
    }
    ledger_create (
        entry user LedgerType.hold_bid amount w.balance after reference ReferenceType.auction_bid
          at)
    wallet_update user w'
    pure w'

unfoldable pub release_funds : ℕ → ℤ → ℕ → Exec Books Wallet
release_funds user amount reference = do
  raise_if (leb_ℤ amount (pos 0)) bad_request
  transaction do
    w ← require_wallet user
    raise_if (ltb_ℤ w.held_funds amount) bad_request
    at ← now
    let after = w.balance +ℤ amount
    let w' : Wallet = record w { balance = after; held_funds = w.held_funds -ℤ amount }
    ledger_create (
        entry user LedgerType.release_bid amount w.balance after reference
          ReferenceType.auction_release at)
    wallet_update user w'
    pure w'
