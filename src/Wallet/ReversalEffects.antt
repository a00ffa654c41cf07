-- ===== src/Wallet/ReversalEffects.antt =====
-- What the reversal of a sale does to the wallets and to the books.
use iron_loot.Common.{
  ℕ, ◌≡◌, refl, ◌∙◌, ◌≢◌, inl, inr, true, some, arith, Option-cases, ℤ, pos, ◌+ℤ◌, ◌-ℤ◌, ◌≤ℤ◌, ◌<ℤ◌,
  min_ℤ, int_laws,
}
use iron_loot.Exec.{ok}
use iron_loot.Table.{lookup, lookup-insert, lookup-insert_ne}
use iron_loot.Wallet.Rows.{Wallet, LedgerType, ReferenceType, Books, entry}
use iron_loot.Wallet.Posting.{worth, total, lookup-IsSolid}
use iron_loot.Wallet.Effects.{IsSound, Moves, posted, posted-keeps}
use iron_loot.Wallet.Sales.{split_reversal, reversar_run}

-- The parts of a reversal of a non-negative amount from a wallet that awaits no negative amount add
-- up to it, none is negative, and each comes only after the one before it is used up: pending,
-- available, debt.
pub split_reversal-parts :
    (w : Wallet) (amount : ℤ)
    → pos 0 ≤ℤ amount
    → pos 0 ≤ℤ w.pending_balance
    → let r = split_reversal w amount in
      (r.tomado_de_retenido +ℤ r.tomado_de_disponible +ℤ r.descubierto ≡ amount)
      × (r.tomado_de_retenido ≡ min_ℤ w.pending_balance amount)
      × (pos 0 ≤ℤ r.tomado_de_retenido)
      × (pos 0 ≤ℤ r.tomado_de_disponible)
      × (pos 0 ≤ℤ r.descubierto)
      × (pos 0 <ℤ r.tomado_de_disponible → r.tomado_de_retenido ≡ w.pending_balance)
      × (pos 0 <ℤ r.descubierto → w.balance ≤ℤ r.tomado_de_disponible)
unfolding split_reversal
split_reversal-parts w amount h k = grind int_laws

abbrev charged : Books → ℕ → Wallet → ℤ → ℕ → Books
charged s seller w amount r =
    let after = w.balance -ℤ (amount -ℤ min_ℤ w.pending_balance amount) in
    posted s seller
      (record w {
        balance = after;
        pending_balance = w.pending_balance -ℤ min_ℤ w.pending_balance amount;
      })
      (entry seller LedgerType.adjustment amount w.balance after r ReferenceType.dispute_reversal
        s.now)

charged-keeps :
    (s : Books) (v : IsSound s) (seller : ℕ) (w : Wallet) (amount : ℤ) (r : ℕ)
    → lookup seller s.wallets ≡ some w
    → IsSound (charged s seller w amount r)
      × (total (charged s seller w amount r).wallets ≡ total s.wallets +ℤ (pos 0 -ℤ amount))
unfolding worth
charged-keeps s v seller w amount r e =
    let pending = w.pending_balance -ℤ min_ℤ w.pending_balance amount in
    let after = w.balance -ℤ (amount -ℤ min_ℤ w.pending_balance amount) in
    posted-keeps s v seller w (record w { balance = after; pending_balance = pending })
      (pos 0 -ℤ amount) LedgerType.adjustment amount w.balance after r
      ReferenceType.dispute_reversal s.now e refl refl
      (grind (int_laws, lookup-IsSolid seller s.wallets {w = w} v.solid e)) (grind int_laws)

abbrev refunded : Books → ℕ → Wallet → ℤ → ℕ → Books
refunded s buyer b amount r =
    posted s buyer (record b { balance = b.balance +ℤ amount; is_active = true })
      (entry buyer LedgerType.refund amount b.balance (b.balance +ℤ amount) r
        ReferenceType.dispute_refund s.now)

refunded-keeps :
    (s : Books) (v : IsSound s) (buyer : ℕ) (b : Wallet) (amount : ℤ) (r : ℕ)
    → lookup buyer s.wallets ≡ some b
    → IsSound (refunded s buyer b amount r)
      × (total (refunded s buyer b amount r).wallets ≡ total s.wallets +ℤ amount)
unfolding worth
refunded-keeps s v buyer b amount r e =
    posted-keeps s v buyer b (record b { balance = b.balance +ℤ amount; is_active = true }) amount
      LedgerType.refund amount b.balance (b.balance +ℤ amount) r ReferenceType.dispute_refund s.now
      e refl refl (lookup-IsSolid buyer s.wallets {w = b} v.solid e) (grind int_laws)

cancel : (a b c x : ℤ) → b ≡ a +ℤ (pos 0 -ℤ x) → c ≡ b +ℤ x → c ≡ a +ℤ pos 0
cancel a b c x h k = grind int_laws

-- A reversal between two users conserves the money on the platform.
pub reversar_run-Moves :
    (buyer seller : ℕ) (amount : ℤ) (r : ℕ) (s : Books)
    → IsSound s
    → buyer ≢ seller
    → Moves s (pos 0) (reversar_run buyer seller amount r s)
unfolding reversar_run split_reversal
reversar_run-Moves buyer seller amount r s v ne = elim (Option-cases (lookup buyer s.wallets)) [
  | inl eb ↦ ground arith
  | inr (b, eb) ↦ elim (Option-cases (lookup seller s.wallets)) [
    | inl es ↦ ground arith
    | inr (w, es) ↦
        let s₁ = charged s seller w amount r in
        let k₁ = charged-keeps s v seller w amount r es in
        let f₁ = lookup-insert_ne buyer seller _ s.wallets ne ∙ eb in
        let k₂ = refunded-keeps s₁ k₁.0 buyer b amount r f₁ in
        rw (eb, es) (k₂.0, cancel (total s.wallets) (total s₁.wallets) _ amount k₁.1 k₂.1)
  ]
]

-- What the reversal does to the two wallets: the seller pays from pending first and the rest from
-- available, below zero if need be, and the buyer has the whole amount.
pub reversar_run_wallets :
    (buyer seller : ℕ) (amount : ℤ) (r : ℕ) (b w : Wallet) (s : Books)
    → buyer ≢ seller
    → lookup buyer s.wallets ≡ some b
    → lookup seller s.wallets ≡ some w
    → let (x, s') = reversar_run buyer seller amount r s in
      let part = split_reversal w amount in
      (x ≡ ok part)
      × (lookup seller s'.wallets
          ≡ some (record w {
            balance = w.balance -ℤ (amount -ℤ part.tomado_de_retenido);
            pending_balance = w.pending_balance -ℤ part.tomado_de_retenido;
          }))
      × (lookup buyer s'.wallets
          ≡ some (record b { balance = b.balance +ℤ amount; is_active = true }))
unfolding reversar_run
reversar_run_wallets buyer seller amount r b w s ne eb es = grind (arith, lookup-insert)
