-- ===== src/Wallet/CallEffects.antt =====
-- What each method that moves one wallet does to the books as a whole.
use iron_loot.Common.{
  ℕ, refl, inl, inr, true, arith, Bool-cases, Option-cases, ℤ, pos, ◌+ℤ◌, ◌-ℤ◌, ltb_ℤ, leb_ℤ,
  int_laws,
}
use iron_loot.Table.{lookup}
use iron_loot.Wallet.Rows.{Wallet, LedgerType, ReferenceType, Books}
use iron_loot.Wallet.Posting.{worth, lookup-IsSolid}
use iron_loot.Wallet.{deposit, withdraw, hold_funds, release_funds, refund_withdrawal}
use iron_loot.Wallet.Effects.{IsSound, Moves, posted-keeps, asegurar-Assured}

-- A withdrawal lowers the money on the platform by its amount, and one that throws changes nothing.
pub withdraw-Moves :
    (u : ℕ) (amount : ℤ) (r : ℕ) (s : Books)
    → IsSound s
    → Moves s (pos 0 -ℤ amount) (withdraw u amount r s)
unfolding withdraw worth
withdraw-Moves u amount r s v = elim (Option-cases (lookup u s.wallets)) [
  | inl e ↦ ground arith
  | inr (w, e) ↦
      let after = w.balance -ℤ amount in
      let w' : Wallet = record w { balance = after } in
      ground (
        arith,
        posted-keeps s v u w w' (pos 0 -ℤ amount) LedgerType.withdrawal amount w.balance after r
            ReferenceType.withdrawal s.now e refl refl
            (lookup-IsSolid u s.wallets {w = w} v.solid e) (grind int_laws),
      )
]

-- A rejected withdrawal's refund raises it by the amount.
pub refund_withdrawal-Moves :
    (u : ℕ) (amount : ℤ) (r : ℕ) (s : Books)
    → IsSound s
    → Moves s amount (refund_withdrawal u amount r s)
unfolding refund_withdrawal worth
refund_withdrawal-Moves u amount r s v = elim (Option-cases (lookup u s.wallets)) [
  | inl e ↦ ground arith
  | inr (w, e) ↦
      let after = w.balance +ℤ amount in
      let w' : Wallet = record w { balance = after } in
      ground (
        arith,
        posted-keeps s v u w w' amount LedgerType.adjustment amount w.balance after r
            ReferenceType.withdrawal_refund s.now e refl refl
            (lookup-IsSolid u s.wallets {w = w} v.solid e) (grind int_laws),
      )
]

-- Holding funds moves them from available to held: the money on the platform stays the same.
pub hold_funds-Moves :
    (u : ℕ) (amount : ℤ) (r : ℕ) (s : Books) → IsSound s → Moves s (pos 0) (hold_funds u amount r s)
unfolding hold_funds worth
hold_funds-Moves u amount r s v = elim (Option-cases (lookup u s.wallets)) [
  | inl e ↦ ground arith
  | inr (w, e) ↦ elim (Bool-cases (leb_ℤ amount (pos 0))) [
    | inl q ↦ ground arith
    | inr q ↦
        let after = w.balance -ℤ amount in
        let held = w.held_funds +ℤ amount in
        let w' : Wallet = record w { balance = after; held_funds = held } in
        ground (
          arith,
          posted-keeps s v u w w' (pos 0) LedgerType.hold_bid amount w.balance after r
              ReferenceType.auction_bid s.now e refl refl
              (grind (int_laws, lookup-IsSolid u s.wallets {w = w} v.solid e)) (grind int_laws),
        )
  ]
]

-- Releasing funds moves them back.
pub release_funds-Moves :
    (u : ℕ) (amount : ℤ) (r : ℕ) (s : Books)
    → IsSound s
    → Moves s (pos 0) (release_funds u amount r s)
unfolding release_funds worth
release_funds-Moves u amount r s v = elim (Option-cases (lookup u s.wallets)) [
  | inl e ↦ ground arith
  | inr (w, e) ↦ elim (Bool-cases (ltb_ℤ w.held_funds amount)) [
    | inl q ↦ ground arith
    | inr q ↦
        let after = w.balance +ℤ amount in
        let held = w.held_funds -ℤ amount in
        let w' : Wallet = record w { balance = after; held_funds = held } in
        ground (
          arith,
          posted-keeps s v u w w' (pos 0) LedgerType.release_bid amount w.balance after r
              ReferenceType.auction_release s.now e refl refl
              (grind (int_laws, lookup-IsSolid u s.wallets {w = w} v.solid e)) (grind int_laws),
        )
  ]
]

-- A deposit raises the money on the platform by its amount, also for a user with no wallet yet.
pub deposit-Moves :
    (u : ℕ) (amount : ℤ) (r : ℕ) (rk : ReferenceType) (s : Books)
    → IsSound s
    → Moves s amount (deposit u amount r rk s)
unfolding deposit worth
deposit-Moves u amount r rk s v =
    let a = asegurar-Assured s u true in
    let w = a.wallet in
    let after = w.balance +ℤ amount in
    let w' : Wallet = record w { balance = after; is_active = true } in
    ground (
      arith,
      a.returns,
      a.found,
      a.same_total,
      posted-keeps a.books (a.sound v) u w w' amount LedgerType.deposit amount w.balance after r rk
          a.books.now a.found refl refl
          (lookup-IsSolid u a.books.wallets {w = w} (a.sound v).solid a.found) (grind int_laws),
    )
