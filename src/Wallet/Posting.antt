-- ===== src/Wallet/Posting.antt =====
-- What the wallets and the ledger owe to one another, and what one posting (an entry and the wallet
-- that it moves) does to that.
use iron_loot.Common.{
  ℕ, ◌≡◌, sym, inl, inr, none, some, List, [], ◌∷◌, arith, ◌==◌, if◌then◌else◌, ==_iff, Bool-cases,
  ℤ, pos, ◌+ℤ◌, ◌≤ℤ◌, int_laws,
}
use iron_loot.Table.{Table, lookup, insert, lookup-insert}
use iron_loot.Wallet.Rows.{Wallet, Ledger, LedgerType, ReferenceType, Books, entry}
use mathlib.Core.Path.{subst}

abbrev pub balance_of : ℕ → Table Wallet → ℤ
balance_of u t = elim (lookup u t) [ none ↦ pos 0 | some w ↦ w.balance ]

-- The entries of `u`, newest first, lead from zero to `b` without a gap.
abbrev pub Chain : ℕ → List Ledger → ℤ → Type 0
Chain u [] b = b ≡ pos 0
Chain u (e ∷ es) b =
    if u == e.wallet then (e.balance_after ≡ b) × Chain u es e.balance_before else Chain u es b

-- The ledger accounts for every wallet's available balance.
pub record IsReconciled (s : Books) : Type 0 where
  pub chained : (u : ℕ) → Chain u s.ledger (balance_of u s.wallets)

unfoldable pub worth : Wallet → ℤ
worth w = w.balance +ℤ w.held_funds +ℤ w.pending_balance

-- All the money on the platform: available, held and pending.
pub total : Table Wallet → ℤ
total [] = pos 0
total ((_, w) ∷ t) = worth w +ℤ total t

abbrev pub Solid : Wallet → Type 0
Solid w = (pos 0 ≤ℤ w.held_funds) × (pos 0 ≤ℤ w.pending_balance)

-- No wallet holds, or awaits, a negative amount.
abbrev pub IsSolid : Table Wallet → Type 0
IsSolid [] = Unit
IsSolid ((_, w) ∷ t) = Solid w × IsSolid t

pub lookup-IsSolid :
    (u : ℕ) (t : Table Wallet) {w : Wallet} → IsSolid t → lookup u t ≡ some w → Solid w
lookup-IsSolid u [] h e = cc
lookup-IsSolid u ((j, v) ∷ t) {w} h e = elim (Bool-cases (u == j)) [
  | inl p ↦ ground arith
  | inr q ↦ lookup-IsSolid u t {w = w} h.1 (ground arith)
]

pub insert-IsSolid :
    (u : ℕ) (w : Wallet) (t : Table Wallet) → IsSolid t → Solid w → IsSolid (insert u w t)
insert-IsSolid u w [] h p = (p, tt)
insert-IsSolid u w ((j, v) ∷ t) h p = elim (Bool-cases (u == j)) [
  | inl q ↦ rw q (p, h.1)
  | inr q ↦ rw q (h.0, insert-IsSolid u w t h.1 p)
]

pub total-insert :
    (u : ℕ) (w old : Wallet) (t : Table Wallet)
    → lookup u t ≡ some old
    → total (insert u w t) +ℤ worth old ≡ total t +ℤ worth w
unfolding total
total-insert u w old [] e = cc
total-insert u w old (x ∷ t) e = grind (int_laws, total-insert u w old t)

pub total-insert_new :
    (u : ℕ) (w : Wallet) (t : Table Wallet)
    → lookup u t ≡ none
    → total (insert u w t) ≡ total t +ℤ worth w
unfolding total
total-insert_new u w [] e = omega int_laws
total-insert_new u w (x ∷ t) e = grind (int_laws, total-insert_new u w t)

pub balance_of-insert :
    (u j : ℕ) (w : Wallet) (t : Table Wallet)
    → balance_of j (insert u w t) ≡ (if j == u then w.balance else balance_of j t)
balance_of-insert u j w t = ground (arith, lookup-insert j u w t)

module _ (u : ℕ) (w : Wallet) (t : Table Wallet) (es : List Ledger) where
  -- A posting of `u` that starts from its balance and leads to the new wallet's balance.
  pub Chain-post :
      (j : ℕ) (kind : LedgerType) (amount before after : ℤ) (r : ℕ) (rk : ReferenceType) (at : ℕ)
      → before ≡ balance_of u t
      → after ≡ w.balance
      → Chain j es (balance_of j t)
      → Chain j (entry u kind amount before after r rk at ∷ es) (balance_of j (insert u w t))
  Chain-post j kind amount before after r rk at eb ea h =
      rw (balance_of-insert u j w t) (elim (Bool-cases (j == u)) [
        | inl q ↦
            let e = (==_iff j u).0 q in
            rw q (ea, rw eb (subst (λ i. Chain j es (balance_of i t)) e h))
        | inr q ↦ rw q h
      ])

module _ (u : ℕ) (t : Table Wallet) (es : List Ledger) where
  -- An entry that leaves the balance where it is, with no wallet written.
  pub Chain-note :
      (j : ℕ) (kind : LedgerType) (amount same : ℤ) (r : ℕ) (rk : ReferenceType) (at : ℕ)
      → same ≡ balance_of u t
      → Chain j es (balance_of j t)
      → Chain j (entry u kind amount same same r rk at ∷ es) (balance_of j t)
  Chain-note j kind amount same r rk at eb h = elim (Bool-cases (j == u)) [
    | inl q ↦
        let e = (==_iff j u).0 q in
        rw q (
          subst (λ i. same ≡ balance_of i t) (sym e) eb,
          rw eb (subst (λ i. Chain j es (balance_of i t)) e h),
        )
    | inr q ↦ rw q h
  ]
