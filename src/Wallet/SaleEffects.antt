-- ===== src/Wallet/SaleEffects.antt =====
-- What a sale and its settlement do to the books as a whole.
use iron_loot.Common.{
  ℕ, ◌+◌, ◌-◌, ◌*◌, ◌≤◌, ◌≡◌, refl, sym, ◌∙◌, ◌≢◌, inl, inr, true, false, some, ◌∷◌, arith,
  Bool-cases, Option-cases, ℤ, pos, negsuc, ◌+ℤ◌, ◌-ℤ◌, ◌≤ℤ◌, ltb_ℤ, int_laws,
}
use iron_loot.Table.{lookup, lookup-insert_ne}
use iron_loot.Wallet.Rows.{Wallet, LedgerType, ReferenceType, Books, entry}
use iron_loot.Wallet.Posting.{Solid, worth, total, lookup-IsSolid, Chain-note}
use iron_loot.Wallet.Effects.{IsSound, Moves, posted, posted-keeps}
use iron_loot.Wallet.Sales.{
  round_cents, exact_fee, exact_pending, capture_run, release_settlement_run,
}

noted-IsSound :
    (s : Books)
    → IsSound s
    → (u : ℕ) (w : Wallet) (kind : LedgerType) (amount same : ℤ) (r : ℕ) (rk : ReferenceType)
      (at : ℕ)
    → lookup u s.wallets ≡ some w
    → same ≡ w.balance
    → IsSound (record s { ledger = entry u kind amount same same r rk at ∷ s.ledger })
noted-IsSound s v u w kind amount same r rk at e h = record {
  reconciled = record {
    chained = λ j.
        Chain-note u s.wallets s.ledger j kind amount same r rk at (ground arith)
          (v.reconciled.chained j);
  };
  solid = v.solid;
}

-- What the seller's pending balance gains by a sale, as the column stores it.
abbrev pub net_credit : ℤ → ℕ → ℕ → ℤ
net_credit pending amount rate = round_cents (exact_pending pending amount rate) -ℤ pending

round_cents_nonneg : (n : ℕ) → pos 0 ≤ℤ round_cents (pos n)
unfolding round_cents
round_cents_nonneg n = omega arith

pub fee-le : (amount rate : ℕ) → rate ≤ 10000 → amount * rate ≤ 10000 * amount
fee-le amount rate k = grind arith

pub exact_pending_lem :
    (n amount rate : ℕ)
    → rate ≤ 10000
    → exact_pending (pos n) amount rate ≡ pos (10000 * (n + amount) - amount * rate)
exact_pending_lem n amount rate k = ground (arith, fee-le amount rate k)

pending_nonneg :
    (p : ℤ) (amount rate : ℕ)
    → pos 0 ≤ℤ p
    → rate ≤ 10000
    → pos 0 ≤ℤ round_cents (exact_pending p amount rate)
pending_nonneg (pos n) amount rate h k =
    rw (exact_pending_lem n amount rate k)
      (round_cents_nonneg (10000 * (n + amount) - amount * rate))
pending_nonneg (negsuc n) amount rate h k = absurd (omega arith)

-- Releasing a settlement moves it from pending to available.
pub release_settlement_run-Moves :
    (seller : ℕ) (amount : ℤ) (r : ℕ) (s : Books)
    → IsSound s
    → Moves s (pos 0) (release_settlement_run seller amount r s)
unfolding release_settlement_run worth
release_settlement_run-Moves u amount r s v = elim (Option-cases (lookup u s.wallets)) [
  | inl e ↦ ground arith
  | inr (w, e) ↦ elim (Bool-cases (ltb_ℤ w.pending_balance amount)) [
    | inl q ↦ grind int_laws
    | inr q ↦
        let after = w.balance +ℤ amount in
        let pending = w.pending_balance -ℤ amount in
        let w' : Wallet = record w {
          balance = after;
          pending_balance = pending;
          is_active = true;
        } in
        ground (
          arith,
          posted-keeps s v u w w' (pos 0) LedgerType.settlement_release amount w.balance after r
              ReferenceType.order s.now e refl refl
              (grind (int_laws, lookup-IsSolid u s.wallets {w = w} v.solid e)) (grind int_laws),
        )
  ]
]

-- The books once the buyer's side of a sale is written, and once the seller's side is.
abbrev pub debited : Books → ℕ → Wallet → ℕ → ℕ → Books
debited s buyer b amount r =
    posted s buyer (record b { held_funds = b.held_funds -ℤ pos amount })
      (entry buyer LedgerType.debit_order (pos amount) b.balance b.balance r ReferenceType.order
        s.now)

abbrev pub credit_noted : Books → ℕ → Wallet → ℕ → ℕ → Books
credit_noted s seller w amount r = record s {
  ledger =
      entry seller LedgerType.credit_sale (pos amount) w.balance w.balance r ReferenceType.order
        s.now
      ∷ s.ledger;
}

abbrev pub credited : Books → ℕ → Wallet → ℕ → ℕ → ℕ → Books
credited s seller w amount r rate =
    posted (credit_noted s seller w amount r) seller
      (record w {
        pending_balance = round_cents (exact_pending w.pending_balance amount rate);
        is_active = true;
      })
      (entry seller LedgerType.fee_platform (round_cents (pos (exact_fee amount rate))) w.balance
        w.balance r ReferenceType.fee s.now)

debited-keeps :
    (s : Books) (v : IsSound s) (buyer : ℕ) (b : Wallet) (amount r : ℕ)
    → lookup buyer s.wallets ≡ some b
    → ltb_ℤ b.held_funds (pos amount) ≡ false
    → IsSound (debited s buyer b amount r)
      × (total (debited s buyer b amount r).wallets ≡ total s.wallets +ℤ (pos 0 -ℤ pos amount))
unfolding worth
debited-keeps s v buyer b amount r e q =
    posted-keeps s v buyer b (record b { held_funds = b.held_funds -ℤ pos amount })
      (pos 0 -ℤ pos amount) LedgerType.debit_order (pos amount) b.balance b.balance r
      ReferenceType.order s.now e refl refl
      (grind (int_laws, lookup-IsSolid buyer s.wallets {w = b} v.solid e)) (grind int_laws)

credited-keeps :
    (s : Books) (v : IsSound s) (seller : ℕ) (w : Wallet) (amount r rate : ℕ)
    → rate ≤ 10000
    → lookup seller s.wallets ≡ some w
    → IsSound (credited s seller w amount r rate)
      × (total (credited s seller w amount r rate).wallets
          ≡ total s.wallets +ℤ net_credit w.pending_balance amount rate)
unfolding worth
credited-keeps s v seller w amount r rate k e =
    posted-keeps (credit_noted s seller w amount r)
      (noted-IsSound s v seller w LedgerType.credit_sale (pos amount) w.balance r
        ReferenceType.order s.now e refl)
      seller w _ (net_credit w.pending_balance amount rate) LedgerType.fee_platform
      (round_cents (pos (exact_fee amount rate))) w.balance w.balance r ReferenceType.fee s.now e
      refl refl (held.0, pending_nonneg w.pending_balance amount rate held.1 k) (grind int_laws)
  where
    held : Solid w
    held = lookup-IsSolid seller s.wallets {w = w} v.solid e

-- A sale takes the amount from what the buyer holds, and credits the seller's pending balance: the
-- money on the platform falls by what is not credited. It throws only before it writes.
pub capture_run-Moves :
    (buyer seller amount r rate : ℕ) (w : Wallet) (s : Books)
    → IsSound s
    → buyer ≢ seller
    → rate ≤ 10000
    → lookup seller s.wallets ≡ some w
    → Moves s
        (net_credit w.pending_balance amount rate -ℤ pos amount)
        (capture_run buyer seller amount r rate s)
unfolding capture_run
capture_run-Moves buyer seller amount r rate w s v ne k e =
    elim (Option-cases (lookup buyer s.wallets)) [
      | inl eb ↦ ground arith
      | inr (b, eb) ↦ elim (Bool-cases (ltb_ℤ b.held_funds (pos amount))) [
        | inl q ↦ ground arith
        | inr q ↦
            let s₁ = debited s buyer b amount r in
            let k₁ = debited-keeps s v buyer b amount r eb q in
            let f₁ = lookup-insert_ne seller buyer _ s.wallets (λ p. ne (sym p)) ∙ e in
            let k₂ = credited-keeps s₁ k₁.0 seller w amount r rate k f₁ in
            grind (int_laws, f₁, k₁, k₂)
      ]
    ]
