-- ===== src/Core/WalletCalculation.antt =====
-- src/packages/core: the arithmetic of locked funds (wallet-calculation.ts), in cents.
use iron_loot.Common.{Bool, false, ℤ, pos, ◌+ℤ◌, ◌-ℤ◌, leb_ℤ, if◌then◌else◌}

unfoldable pub get_available_balance : ℤ → ℤ → ℤ
get_available_balance balance held_funds = balance -ℤ held_funds

unfoldable pub can_lock_funds : ℤ → ℤ → ℤ → Bool
unfolding get_available_balance
can_lock_funds balance held_funds amount =
    if leb_ℤ amount (pos 0) then false else leb_ℤ amount (get_available_balance balance held_funds)

unfoldable pub calculate_new_held_funds : ℤ → ℤ → ℤ
calculate_new_held_funds current_held bid_amount = current_held +ℤ bid_amount
