-- ===== src/Wallet/Fees.antt =====
-- How the fee and the seller's credit of a sale, each rounded by its own column, add up.
use iron_loot.Common.{
  ap, true, ◌<◌, sym, refl, ◌∙◌, some, ◌∷◌, ◌-ℤ◌, ltb_ℤ, ℕ, ◌+◌, ◌-◌, ◌*◌, ◌/◌, ◌%◌, ◌≤◌, ◌≡◌, ◌≢◌,
  inl, inr, false, arith, ◌==◌, if◌then◌else◌, ==_iff, Bool-cases, ℤ, pos, ◌+ℤ◌, int_laws,
}
use iron_loot.Exec.{ok}
use iron_loot.Table.{lookup, lookup-insert_self, lookup-insert_ne}
use iron_loot.Wallet.Rows.{Wallet, LedgerType, ReferenceType, Books, entry}
use iron_loot.Wallet.Sales.{round_cents, exact_fee, exact_pending, capture_run}
use iron_loot.Wallet.SaleEffects.{debited, credited, net_credit, fee-le, exact_pending_lem}

-- The fee as `FEE_PLATFORM` stores it.
abbrev pub stored_fee : ℕ → ℕ → ℤ
stored_fee amount rate = round_cents (pos (exact_fee amount rate))

-- One cent if the exact fee lies halfway between two cents, else nothing.
abbrev pub printed : ℕ → ℕ → ℕ
printed amount rate = if amount * rate % 10000 == 5000 then 1 else 0

rounds_apart :
    (n a m : ℕ)
    → m ≤ 10000 * a
    → (m + 5000) / 10000 + (10000 * (n + a) - m + 5000) / 10000
      ≡ n + a + (if m % 10000 == 5000 then 1 else 0)
rounds_apart n a m h = elim (Bool-cases (m % 10000 == 5000)) [
  | inl q ↦ rw q (let e = (==_iff (m % 10000) 5000).0 q in omega arith)
  | inr q ↦ rw q (omega (arith, not_tie m q))
]
  where
    not_tie : (m : ℕ) → (m % 10000 == 5000) ≡ false → m % 10000 ≢ 5000
    not_tie m q = ground arith

-- The two rounded parts of a price, where the seller awaits no negative amount.
stored_fee-net_credit :
    (p amount rate : ℕ)
    → rate ≤ 10000
    → stored_fee amount rate +ℤ net_credit (pos p) amount rate ≡ pos (amount + printed amount rate)
unfolding round_cents
stored_fee-net_credit p amount rate k =
    rw (exact_pending_lem p amount rate k)
      (grind (int_laws, rounds_apart p amount (amount * rate) (fee-le amount rate k)))

-- What a sale leaves: the price is off what the buyer holds; the ledger has the buyer's debit, the
-- seller's sale and its fee, the price's share at the rate to the nearest cent, a half up; and what
-- the seller awaits has grown by the rest.
pub record Charged (buyer seller amount reference rate : ℕ) (b w : Wallet) (s s' : Books)
    : Type 0 where
  pub fee : ℕ
  pub net : ℤ
  pub below : amount * rate < 10000 * fee + 5000
  pub above : 10000 * fee ≤ amount * rate + 5000
  pub noted :
      s'.ledger
      ≡ entry seller LedgerType.fee_platform
          (pos fee)
          w.balance
          w.balance
          reference
          ReferenceType.fee
          s.now
        ∷ entry seller LedgerType.credit_sale
            (pos amount)
            w.balance
            w.balance
            reference
            ReferenceType.order
            s.now
        ∷ entry buyer LedgerType.debit_order
            (pos amount)
            b.balance
            b.balance
            reference
            ReferenceType.order
            s.now
        ∷ s.ledger
  pub buyer_after :
      lookup buyer s'.wallets ≡ some (record b { held_funds = b.held_funds -ℤ pos amount })
  pub seller_after :
      lookup seller s'.wallets
      ≡ some (record w { pending_balance = w.pending_balance +ℤ net; is_active = true })
  pub adds_up : pos fee +ℤ net ≡ pos (amount + printed amount rate)

grown : (x y : ℤ) → x +ℤ (y -ℤ x) ≡ y
grown x y = grind int_laws

module _ (buyer seller amount reference rate p : ℕ) (b w : Wallet) (s : Books) (ne : buyer ≢ seller)
    (k : rate ≤ 10000) (eb : lookup buyer s.wallets ≡ some b)
    (ew : lookup seller s.wallets ≡ some w) (awaits : w.pending_balance ≡ pos p)
    (holds : ltb_ℤ b.held_funds (pos amount) ≡ false) where
  capture_run_after :
      capture_run buyer seller amount reference rate s
      ≡ (ok tt, credited (debited s buyer b amount reference) seller w amount reference rate)
  unfolding capture_run
  capture_run_after =
      let b' : Wallet = record b { held_funds = b.held_funds -ℤ pos amount } in
      let f = lookup-insert_ne seller buyer b' s.wallets (λ q. ne (sym q)) ∙ ew in ground (arith, f)

  -- A sale between two users with wallets, where the buyer holds the price, the seller awaits no
  -- negative amount and the rate is at most 100 %, returns. The price leaves what the buyer holds;
  -- the ledger has the debit, the sale and the fee, which is the share of the price at the rate, to
  -- the nearest cent and a half up; what the seller awaits grows by the rest. Fee and rest add up
  -- to the price, or to one cent more where the share lies halfway between two cents.
  pub capture_run-Charged :
      let (x, s') = capture_run buyer seller amount reference rate s in
      (x ≡ ok tt) × Charged buyer seller amount reference rate b w s s'
  unfolding round_cents
  capture_run-Charged = rw capture_run_after (
    refl,
    record {
      fee = (amount * rate + 5000) / 10000;
      net = net_credit w.pending_balance amount rate;
      below = omega arith;
      above = omega arith;
      noted = refl;
      buyer_after = lookup-insert_ne buyer seller _ _ ne ∙ lookup-insert_self buyer _ s.wallets;
      seller_after =
          lookup-insert_self seller _ _
          ∙ ap (λ z. some (record w { pending_balance = z; is_active = true }))
              (sym (
                grown w.pending_balance
                  (round_cents (exact_pending w.pending_balance amount rate))));
      adds_up = rw awaits (stored_fee-net_credit p amount rate k);
    },
  )
