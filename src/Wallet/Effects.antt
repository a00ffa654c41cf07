-- ===== src/Wallet/Effects.antt =====
-- What a call of the wallet service does to the books as a whole, and the lemmas that show it.
use iron_loot.Common.{
  ℕ, ◌≡◌, refl, ◌≢◌, inl, inr, Bool, none, some, ◌∷◌, arith, Option-cases, ℤ, pos, ◌+ℤ◌, int_laws,
}
use iron_loot.Exec.{Result, ok, err}
use iron_loot.Table.{Table, lookup, insert, lookup-insert_self, lookup-insert_ne}
use iron_loot.Wallet.Rows.{
  Wallet, Ledger, LedgerType, ReferenceType, Books, entry, new_wallet, asegurar_monedero,
}
use iron_loot.Wallet.Posting.{
  IsReconciled, Solid, IsSolid, balance_of, worth, total, insert-IsSolid, total-insert,
  total-insert_new, balance_of-insert, Chain-post,
}

pub record IsSound (s : Books) : Type 0 where
  pub reconciled : IsReconciled s
  pub solid : IsSolid s.wallets

-- What a call that began at `s` has done, by how it ended.
abbrev pub Moves : {A : Type 0} → Books → ℤ → Result A × Books → Type 0
Moves s cash (ok _, s') = IsSound s' × (total s'.wallets ≡ total s.wallets +ℤ cash)
Moves s cash (err _, s') = s' ≡ s

abbrev pub posted : Books → ℕ → Wallet → Ledger → Books
posted s u w e = record s { wallets = insert u w s.wallets; ledger = e ∷ s.ledger }

module _ (s : Books) (v : IsSound s) where
  pub posted-IsSound :
      (u : ℕ) (w w' : Wallet) (kind : LedgerType) (amount before after : ℤ) (r : ℕ)
      (rk : ReferenceType) (at : ℕ)
      → lookup u s.wallets ≡ some w
      → before ≡ w.balance
      → after ≡ w'.balance
      → Solid w'
      → IsSound (posted s u w' (entry u kind amount before after r rk at))
  posted-IsSound u w w' kind amount before after r rk at e eb ea p = record {
    reconciled = record {
      chained = λ j.
          Chain-post u w' s.wallets s.ledger j kind amount before after r rk at (ground arith) ea
            (v.reconciled.chained j);
    };
    solid = insert-IsSolid u w' s.wallets v.solid p;
  }

  pub total-posted :
      (u : ℕ) (w w' : Wallet) (cash : ℤ)
      → lookup u s.wallets ≡ some w
      → worth w' ≡ worth w +ℤ cash
      → total (insert u w' s.wallets) ≡ total s.wallets +ℤ cash
  total-posted u w w' cash e h = grind (int_laws, total-insert u w' w s.wallets e)

  -- One posting: the books stay sound, and the money changes by `cash`.
  pub posted-keeps :
      (u : ℕ) (w w' : Wallet) (cash : ℤ) (kind : LedgerType) (amount before after : ℤ) (r : ℕ)
      (rk : ReferenceType) (at : ℕ)
      → lookup u s.wallets ≡ some w
      → before ≡ w.balance
      → after ≡ w'.balance
      → Solid w'
      → worth w' ≡ worth w +ℤ cash
      → IsSound (posted s u w' (entry u kind amount before after r rk at))
        × (total (insert u w' s.wallets) ≡ total s.wallets +ℤ cash)
  posted-keeps u w w' cash kind amount before after r rk at e eb ea p h = (
    posted-IsSound u w w' kind amount before after r rk at e eb ea p,
    total-posted u w w' cash e h,
  )

-- What awaits `u`, nothing without a wallet.
abbrev pub pending_of : ℕ → Table Wallet → ℤ
pending_of u t = elim (lookup u t) [ none ↦ pos 0 | some w ↦ w.pending_balance ]

-- The books after `asegurarMonedero`: the user has a wallet, and no money has moved.
pub record Assured (s : Books) (u : ℕ) (active : Bool) : Type 0 where
  pub wallet : Wallet
  pub books : Books
  pub returns : asegurar_monedero u active s ≡ (ok wallet, books)
  pub found : lookup u books.wallets ≡ some wallet
  pub sound : IsSound s → IsSound books
  pub same_total : total books.wallets ≡ total s.wallets
  pub same_now : books.now ≡ s.now
  pub same_pending : wallet.pending_balance ≡ pending_of u s.wallets
  pub others : (j : ℕ) → j ≢ u → lookup j books.wallets ≡ lookup j s.wallets
  pub kept : {w : Wallet} → lookup u s.wallets ≡ some w → books ≡ s

balance_of-new :
    (u j : ℕ) (active : Bool) (t : Table Wallet)
    → lookup u t ≡ none
    → balance_of j (insert u (new_wallet active) t) ≡ balance_of j t
balance_of-new u j active t e = ground (arith, balance_of-insert u j (new_wallet active) t)

new_wallet-IsSound :
    (s : Books) (u : ℕ) (active : Bool)
    → lookup u s.wallets ≡ none
    → IsSound s
    → IsSound (record s { wallets = insert u (new_wallet active) s.wallets })
new_wallet-IsSound s u active e v = record {
  reconciled = record {
    chained = λ j. rw (balance_of-new u j active s.wallets e) (v.reconciled.chained j);
  };
  solid = insert-IsSolid u (new_wallet active) s.wallets v.solid (omega arith);
}

pub asegurar-Assured : (s : Books) (u : ℕ) (active : Bool) → Assured s u active
unfolding asegurar_monedero worth
asegurar-Assured s u active = elim (Option-cases (lookup u s.wallets)) [
  | inl e ↦ record {
    wallet = new_wallet active;
    books = record s { wallets = insert u (new_wallet active) s.wallets };
    returns = ground arith;
    found = lookup-insert_self u (new_wallet active) s.wallets;
    sound = new_wallet-IsSound s u active e;
    same_total = grind (int_laws, total-insert_new u (new_wallet active) s.wallets e);
    same_now = refl;
    same_pending = ground arith;
    others = λ j ne. lookup-insert_ne j u (new_wallet active) s.wallets ne;
    kept = λ found. cc;
  }
  | inr (w, e) ↦ record {
    wallet = w;
    books = s;
    returns = ground arith;
    found = e;
    sound = λ v. v;
    same_total = refl;
    same_now = refl;
    same_pending = ground arith;
    others = λ j ne. refl;
    kept = λ found. refl;
  }
]
