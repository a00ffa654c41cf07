-- ===== src/Wallet/Tests.antt =====
-- Runs of the wallet service, and its theorems at them.
use iron_loot.Common.{false, ◌≡◌, refl, true, List, [], ◌∷◌, arith, pos, ◌+ℤ◌}
use iron_loot.Wallet.Rows.{Wallet, ReferenceType, Books}
use iron_loot.Wallet.Posting.{total}
use iron_loot.Wallet.Effects.{IsSound}
use iron_loot.Wallet.Fees.{Charged, capture_run-Charged}
use iron_loot.Wallet.Sales.{capture_run}
use iron_loot.Exec.{ok}
use iron_loot.Wallet.Runs.{Call, run, run-IsSound}

abbrev empty : Books
empty = record { wallets = []; ledger = []; now = 1000 }

empty-IsSound : IsSound empty
empty-IsSound = record { reconciled = record { chained = λ u. refl }; solid = tt }

-- User 1 pays 100.00 in, bids 40.00 and wins against seller 2 at 10 %; the sale is settled and then
-- reversed after the seller has withdrawn 30.00. The withdrawal of 500.00 throws.
abbrev calls : List Call
calls =
    Call.deposit 1 (pos 10000) 7 ReferenceType.payment
    ∷ Call.hold_funds 1 (pos 4000) 8
    ∷ Call.capture_held_funds 1 2 4000 8 1000 (omega arith) (omega arith)
    ∷ Call.withdraw 2 (pos 50000) 9
    ∷ Call.release_settlement 2 (pos 3600) 8
    ∷ Call.withdraw 2 (pos 3000) 9
    ∷ Call.reversar_venta 1 2 (pos 4000) 8 (omega arith)
    ∷ []

run-IsSound_example :
    let (x, s') = run calls empty in IsSound s' × (total s'.wallets ≡ total empty.wallets +ℤ x)
run-IsSound_example = run-IsSound calls empty empty-IsSound

-- Five cents at 10 %: a fee of half a cent.
abbrev winner : Wallet
winner = record { balance = pos 0; held_funds = pos 5; pending_balance = pos 0; is_active = true }

abbrev vendor : Wallet
vendor = record { balance = pos 9; held_funds = pos 0; pending_balance = pos 7; is_active = false }

abbrev sold : Books
sold = record { wallets = (1, winner) ∷ (2, vendor) ∷ []; ledger = []; now = 1000 }

capture_run-Charged_example :
    let (x, s') = capture_run 1 2 5 8 1000 sold in
    (x ≡ ok tt) × Charged 1 2 5 8 1000 winner vendor sold s'
capture_run-Charged_example =
    capture_run-Charged 1 2 5 8 1000 7 winner vendor sold (omega arith) (omega arith) refl refl refl
      refl

abbrev seller : Wallet
seller = record {
  balance = pos 600;
  held_funds = pos 0;
  pending_balance = pos 100;
  is_active = true;
}
