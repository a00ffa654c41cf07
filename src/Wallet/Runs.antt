-- ===== src/Wallet/Runs.antt =====
-- The wallet service over any sequence of calls.
use iron_loot.Common.{
  ℕ, ◌≤◌, ◌≡◌, refl, ◌∙◌, ◌≢◌, true, false, List, [], ◌∷◌, ℤ, pos, ◌+ℤ◌, ◌-ℤ◌, int_laws,
}
use iron_loot.Exec.{Result, ok, err, ⊤, Exec, pure, settle, continue, ◌>>◌}
use iron_loot.Wallet.Rows.{ReferenceType, Books}
use iron_loot.Wallet.Posting.{total}
use iron_loot.Wallet.Effects.{IsSound, Moves, pending_of, asegurar-Assured}
use iron_loot.Wallet.CallEffects.{
  deposit-Moves, withdraw-Moves, hold_funds-Moves, release_funds-Moves, refund_withdrawal-Moves,
}
use iron_loot.Wallet.SaleEffects.{net_credit, capture_run-Moves, release_settlement_run-Moves}
use iron_loot.Wallet.ReversalEffects.{reversar_run-Moves}
use iron_loot.Wallet.Sales.{capture_run, release_settlement_run, reversar_run}
use iron_loot.Wallet

-- A call of a method that writes. A sale and a reversal are between two users, and a rate is at most
-- 100 %.
pub data Call : Type 0 where
  get_balance : ℕ → Call
  deposit : ℕ → ℤ → ℕ → ReferenceType → Call
  withdraw hold_funds release_funds refund_withdrawal release_settlement : ℕ → ℤ → ℕ → Call
  capture_held_funds : (buyer seller amount r rate : ℕ) → buyer ≢ seller → rate ≤ 10000 → Call
  reversar_venta : (buyer seller : ℕ) → ℤ → ℕ → buyer ≢ seller → Call

unfoldable pub answer : Call → Exec Books ⊤
answer (get_balance u) = Wallet.get_balance u >> pure tt
answer (deposit u x r k) = Wallet.deposit u x r k >> pure tt
answer (withdraw u x r) = Wallet.withdraw u x r >> pure tt
answer (hold_funds u x r) = Wallet.hold_funds u x r >> pure tt
answer (release_funds u x r) = Wallet.release_funds u x r >> pure tt
answer (refund_withdrawal u x r) = Wallet.refund_withdrawal u x r
answer (release_settlement u x r) = Wallet.Sales.release_settlement u x r
answer (capture_held_funds b s x r rate _ _) = Wallet.Sales.capture_held_funds b s x r rate
answer (reversar_venta b s x r _) = Wallet.Sales.reversar_venta b s x r >> pure tt

-- The money that a call brings onto the platform if it returns.
abbrev pub cash : Call → Books → ℤ
cash (get_balance u) s = pos 0
cash (deposit u x r k) s = x
cash (withdraw u x r) s = pos 0 -ℤ x
cash (hold_funds u x r) s = pos 0
cash (release_funds u x r) s = pos 0
cash (refund_withdrawal u x r) s = x
cash (release_settlement u x r) s = pos 0
cash (capture_held_funds b u x r rate _ _) s = net_credit (pending_of u s.wallets) x rate -ℤ pos x
cash (reversar_venta b u x r _) s = pos 0

abbrev pub flow : ℤ → Result ⊤ → ℤ
flow x (ok _) = x
flow x (err _) = pos 0

-- Calls one after another; an exception ends its own call only. The sum is of what flowed in.
unfoldable pub run : List Call → Books → ℤ × Books
run [] s = (pos 0, s)
run (c ∷ cs) s = let (r, s₁) = answer c s in let (x, s₂) = run cs s₁ in (flow (cash c s) r +ℤ x, s₂)

-- A call leaves the books sound, and what flowed in is what is there in addition.
abbrev Balanced : Books → ℤ → Result ⊤ × Books → Type 0
Balanced s x (r, s') = IsSound s' × (total s'.wallets ≡ total s.wallets +ℤ flow x r)

Moves-settle :
    {A : Type 0} (s : Books) (x : ℤ) (m : Result A × Books) → Moves s x m → Moves s x (settle s m)
Moves-settle s x (ok a, s') h = h
Moves-settle s x (err e, s') h = refl

Moves-Balanced :
    {A : Type 0} (s : Books) (x : ℤ) (m : Result A × Books)
    → IsSound s
    → Moves s x m
    → Balanced s x (continue (λ _. pure tt) m)
Moves-Balanced s x (ok a, s') v h = h
Moves-Balanced s x (err e, s') v h = rw h (v, grind int_laws)

Moves-Balanced_tt :
    (s : Books) (x : ℤ) (m : Result ⊤ × Books) → IsSound s → Moves s x m → Balanced s x m
Moves-Balanced_tt s x (ok a, s') v h = h
Moves-Balanced_tt s x (err e, s') v h = rw h (v, grind int_laws)

-- A call that first makes sure of a wallet is balanced from before that.
Balanced-assured :
    (s s₁ : Books) (x : ℤ) (m : Result ⊤ × Books)
    → total s₁.wallets ≡ total s.wallets
    → Balanced s₁ x m
    → Balanced s x m
Balanced-assured s s₁ x m e h = (h.0, rw (← e) h.1)

get_balance-Balanced :
    (u : ℕ) (s : Books) → IsSound s → Balanced s (pos 0) ((Wallet.get_balance u >> pure tt) s)
unfolding Wallet.get_balance
get_balance-Balanced u s v =
    let a = asegurar-Assured s u false in rw a.returns (a.sound v, grind (int_laws, a.same_total))

capture-Balanced :
    (b u x r rate : ℕ) (s : Books)
    → b ≢ u
    → rate ≤ 10000
    → IsSound s
    → Balanced s
        (net_credit (pending_of u s.wallets) x rate -ℤ pos x)
        (Wallet.Sales.capture_held_funds b u x r rate s)
unfolding Wallet.Sales.capture_held_funds
capture-Balanced b u x r rate s ne k v =
    let a = asegurar-Assured s u true in
    let m = capture_run b u x r rate a.books in
    let moves = capture_run-Moves b u x r rate a.wallet a.books (a.sound v) ne k a.found in
    rw (a.returns, ← a.same_pending)
      (Balanced-assured s a.books _ (settle a.books m) a.same_total (
        Moves-Balanced_tt a.books _ (settle a.books m) (a.sound v)
          (Moves-settle a.books _ m moves)))

reversar-Balanced :
    (b u : ℕ) (x : ℤ) (r : ℕ) (s : Books)
    → b ≢ u
    → IsSound s
    → Balanced s (pos 0) ((Wallet.Sales.reversar_venta b u x r >> pure tt) s)
unfolding Wallet.Sales.reversar_venta
reversar-Balanced b u x r s ne v =
    let a = asegurar-Assured s b true in
    let c = asegurar-Assured a.books u true in
    let sound = c.sound (a.sound v) in
    let m = reversar_run b u x r c.books in
    rw (a.returns, c.returns)
      (Balanced-assured s c.books (pos 0) (continue (λ _. pure tt) (settle c.books m))
        (c.same_total ∙ a.same_total)
        (Moves-Balanced c.books (pos 0) (settle c.books m) sound
          (Moves-settle c.books (pos 0) m (reversar_run-Moves b u x r c.books sound ne))))

answer-Balanced : (c : Call) (s : Books) → IsSound s → Balanced s (cash c s) (answer c s)
unfolding answer Wallet.Sales.release_settlement
answer-Balanced (get_balance u) s v = get_balance-Balanced u s v
answer-Balanced (deposit u x r k) s v =
    Moves-Balanced s x (Wallet.deposit u x r k s) v (deposit-Moves u x r k s v)
answer-Balanced (withdraw u x r) s v =
    Moves-Balanced s _ (Wallet.withdraw u x r s) v (withdraw-Moves u x r s v)
answer-Balanced (hold_funds u x r) s v =
    Moves-Balanced s _ (Wallet.hold_funds u x r s) v (hold_funds-Moves u x r s v)
answer-Balanced (release_funds u x r) s v =
    Moves-Balanced s _ (Wallet.release_funds u x r s) v (release_funds-Moves u x r s v)
answer-Balanced (refund_withdrawal u x r) s v =
    Moves-Balanced_tt s x (Wallet.refund_withdrawal u x r s) v (refund_withdrawal-Moves u x r s v)
answer-Balanced (release_settlement u x r) s v =
    let m = release_settlement_run u x r s in
    Moves-Balanced_tt s (pos 0) (settle s m) v
      (Moves-settle s (pos 0) m (release_settlement_run-Moves u x r s v))
answer-Balanced (capture_held_funds b u x r rate ne k) s v = capture-Balanced b u x r rate s ne k v
answer-Balanced (reversar_venta b u x r ne) s v = reversar-Balanced b u x r s ne v

-- Over any sequence of wallet calls, whether they return or throw, every available balance stays
-- explained by its user's ledger entries without a gap, no wallet holds or awaits a negative
-- amount, and the money on the platform changes by exactly what the calls that returned brought in.
-- A sale and a reversal are between two users, and a rate is at most 100 %.
pub run-IsSound :
    (cs : List Call) (s : Books)
    → IsSound s
    → let (x, s') = run cs s in IsSound s' × (total s'.wallets ≡ total s.wallets +ℤ x)
unfolding run
run-IsSound [] s v = (v, grind int_laws)
run-IsSound (c ∷ cs) s v =
    let k = answer-Balanced c s v in
    let h = run-IsSound cs (answer c s).1 k.0 in (h.0, grind (int_laws, k, h))
