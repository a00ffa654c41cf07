-- ===== src/Wallet/Cases.antt =====
-- The branches of the wallet methods that other services call, with the wallets that they leave.
use iron_loot.Common.{
  ℕ, ◌≡◌, ◌⊎◌, inl, inr, true, false, some, arith, Bool-cases, Option-cases, ℤ, pos, ◌+ℤ◌, ◌-ℤ◌,
  ◌≤ℤ◌, ◌<ℤ◌, leb_ℤ,
}
use iron_loot.Exec.{Error, ok, err, not_found, bad_request, insufficient_balance}
use iron_loot.Table.{lookup}
use iron_loot.Core.WalletCalculation.{can_lock_funds}
use iron_loot.Wallet.Rows.{Wallet, LedgerType, ReferenceType, Books, entry}
use iron_loot.Wallet.Effects.{posted}
use iron_loot.Wallet.{hold_funds, release_funds}

-- The wallet once `amount` is held, and once it is released.
abbrev pub held : Wallet → ℤ → Wallet
held w amount = record w { balance = w.balance -ℤ amount; held_funds = w.held_funds +ℤ amount }

abbrev pub released : Wallet → ℤ → Wallet
released w amount = record w { balance = w.balance +ℤ amount; held_funds = w.held_funds -ℤ amount }

-- The books once `amount` is held.
abbrev pub held_books : ℕ → ℤ → ℕ → Wallet → Books → Books
held_books u amount r w s = posted s u (held w amount) (
    entry u LedgerType.hold_bid amount w.balance (w.balance -ℤ amount) r ReferenceType.auction_bid
      s.now)

pub record Held (u : ℕ) (amount : ℤ) (r : ℕ) (s : Books) : Type 0 where
  pub wallet : Wallet
  pub found : lookup u s.wallets ≡ some wallet
  pub positive : pos 0 <ℤ amount
  pub active : wallet.is_active ≡ true
  pub covered : amount ≤ℤ wallet.balance
  pub returns : hold_funds u amount r s ≡ (ok (held wallet amount), held_books u amount r wallet s)

can_lock_funds_lem :
    (balance amount : ℤ)
    → leb_ℤ amount (pos 0) ≡ false
    → can_lock_funds balance (pos 0) amount ≡ leb_ℤ amount balance
unfolding can_lock_funds ◌-ℤ◌
can_lock_funds_lem balance amount h = ground arith

pub hold_funds_cases :
    (u : ℕ) (amount : ℤ) (r : ℕ) (s : Books)
    → Held u amount r s ⊎ ((e : Error) × (hold_funds u amount r s ≡ (err e, s)))
unfolding hold_funds
hold_funds_cases u amount r s = elim (Option-cases (lookup u s.wallets)) [
  | inl e ↦ elim (Bool-cases (leb_ℤ amount (pos 0))) [
    | inl q ↦ inr (bad_request, ground arith)
    | inr q ↦ inr (not_found, ground arith)
  ]
  | inr (w, e) ↦ elim (Bool-cases (leb_ℤ amount (pos 0))) [
    | inl q ↦ inr (bad_request, ground arith)
    | inr q ↦ elim (Bool-cases w.is_active) [
      | inr i ↦ inr (bad_request, ground arith)
      | inl i ↦ elim (Bool-cases (leb_ℤ amount w.balance)) [
        | inr c ↦ inr (insufficient_balance, ground (arith, can_lock_funds_lem w.balance amount q))
        | inl c ↦ inl (record {
          wallet = w;
          found = e;
          positive = ground arith;
          active = i;
          covered = ground arith;
          returns = ground (arith, can_lock_funds_lem w.balance amount q);
        })
      ]
    ]
  ]
]

-- What is held covers the release: it goes back to the available balance.
pub release_funds_covered :
    (u : ℕ) (amount : ℤ) (r : ℕ) (w : Wallet) (s : Books)
    → lookup u s.wallets ≡ some w
    → pos 0 <ℤ amount
    → amount ≤ℤ w.held_funds
    → release_funds u amount r s ≡ (
      ok (released w amount),
      posted s u (released w amount) (
          entry u LedgerType.release_bid amount w.balance
            (w.balance +ℤ amount)
            r
            ReferenceType.auction_release
            s.now),
    )
unfolding release_funds
release_funds_covered u amount r w s e h k = ground arith
