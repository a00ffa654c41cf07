-- ===== src/Market/Scheduler/Losers.antt =====
-- Whose funds the end of an auction releases.
use iron_loot.Common.{
  ℕ, ◌<◌, ◌≡◌, refl, sym, ◌∙◌, ◌≢◌, inl, inr, true, ◌&&◌, not, Option, none, some, List, [], ◌∷◌,
  arith, ltb, ◌==◌, if◌then◌else◌, ==_iff, Bool-cases, Option-cases, ℤ, pos, ◌≤ℤ◌, int_laws,
}
use iron_loot.Exec.{ok, outcome_cases}
use iron_loot.Table.{Table, lookup, insert, lookup-insert, lookup-insert_self, lookup-insert_ne}
use mathlib.Core.Path.{subst}
use iron_loot.Wallet.Rows.{Wallet, Books}
use iron_loot.Wallet.Posting.{total}
use iron_loot.Wallet.Effects.{IsSound, Moves}
use iron_loot.Wallet.CallEffects.{release_funds-Moves}
use iron_loot.Wallet.Cases.{released, release_funds_covered}
use iron_loot.Wallet.{release_funds}
use iron_loot.Market.Rows.{Bid, Db}
use iron_loot.Market.Scheduler.{losers, release_losers, raise_max}

-- The highest amount that `u` has bid, read off the bids one by one.
abbrev pub highest_bid : ℕ → ℕ → List Bid → Option ℕ
highest_bid k u [] = none
highest_bid k u (b ∷ bs) =
    let rest = highest_bid k u bs in
    if (b.auction_id == k) && (b.bidder_id == u)
    then elim rest [ none ↦ some b.amount | some m ↦ some (if ltb m b.amount then b.amount else m) ]
    else rest

lookup-raise_max :
    (u v amount : ℕ) (t : Table ℕ)
    → lookup u (raise_max v amount t) ≡ (
        if u == v
        then elim (lookup u t) [
          | none ↦ some amount
          | some m ↦ some (if ltb m amount then amount else m)
        ]
        else lookup u t)
lookup-raise_max u v amount t = elim (Option-cases (lookup v t)) [
  | inl e ↦ ground (arith, lookup-insert u v amount t, (==_iff u v).0)
  | inr (m, e) ↦ ground (arith, lookup-insert u v (if ltb m amount then amount else m) t)
]

-- The grouped query of an auction's losers gives each other bidder the highest amount that this
-- user has bid on it, and nothing for the winner.
pub lookup-losers :
    (k winner u : ℕ) (bs : List Bid)
    → lookup u (losers k winner bs) ≡ (if u == winner then none else highest_bid k u bs)
unfolding losers
lookup-losers k winner u [] = ground arith
lookup-losers k winner u (b ∷ bs) = ground (
  arith,
  lookup-raise_max u b.bidder_id b.amount (losers k winner bs),
  lookup-losers k winner u bs,
)

-- No user twice.
abbrev pub Distinct : Table ℕ → Type 0
Distinct [] = Unit
Distinct ((u, _) ∷ t) = (lookup u t ≡ none) × Distinct t

insert-Distinct : (u m : ℕ) (t : Table ℕ) → Distinct t → Distinct (insert u m t)
insert-Distinct u m [] d = (refl, tt)
insert-Distinct u m ((j, x) ∷ t) d = elim (Bool-cases (u == j)) [
  | inl q ↦ rw q (ground (arith, (==_iff u j).0 q), d.1)
  | inr q ↦ rw q (ground (arith, lookup-insert_ne j u m t), insert-Distinct u m t d.1)
]

raise_max-Distinct : (u amount : ℕ) (t : Table ℕ) → Distinct t → Distinct (raise_max u amount t)
raise_max-Distinct u amount t d = elim (Option-cases (lookup u t)) [
  | inl e ↦ rw (raise_max, e) (insert-Distinct u amount t d)
  | inr (m, e) ↦ rw (raise_max, e) (insert-Distinct u (if ltb m amount then amount else m) t d)
]

pub losers-Distinct : (k winner : ℕ) (bs : List Bid) → Distinct (losers k winner bs)
unfolding losers
losers-Distinct k winner [] = tt
losers-Distinct k winner (b ∷ bs) =
    elim (Bool-cases ((b.auction_id == k) && not (b.bidder_id == winner))) [
      | inl q ↦ rw q (
          raise_max-Distinct b.bidder_id b.amount (losers k winner bs)
            (losers-Distinct k winner bs))
      | inr q ↦ rw q (losers-Distinct k winner bs)
    ]

release_funds_others :
    (u j : ℕ) (amount : ℤ) (r : ℕ) (s : Books)
    → j ≢ u
    → lookup j (release_funds u amount r s).1.wallets ≡ lookup j s.wallets
unfolding release_funds
release_funds_others u j amount r s ne = elim (Option-cases (lookup u s.wallets)) [
  | inl e ↦ ground arith
  | inr (w, e) ↦ ground (arith, lookup-insert_ne j u (released w amount) s.wallets ne)
]

release_losers_absent :
    (k u : ℕ) (t : Table ℕ) (s : Db)
    → lookup u t ≡ none
    → lookup u (release_losers k t s).1.books.wallets ≡ lookup u s.books.wallets
unfolding release_losers
release_losers_absent k u [] s e = refl
release_losers_absent k u ((j, m) ∷ t) s e =
    let s₁ : Db = record s { books = (release_funds j (pos m) k s.books).1 } in
    release_losers_absent k u t s₁ (ground arith)
    ∙ release_funds_others j u (pos m) k s.books (ground arith)

same_amount : (u m j x : ℕ) (t : Table ℕ) → (u == j) ≡ true → lookup u ((j, x) ∷ t) ≡ some m → x ≡ m
same_amount u m j x t z e = ground arith

-- The losers' loop, over a table with no user twice, releases to a user of the table exactly the
-- amount in it, where the wallet holds it, whatever happens to the other users.
pub release_losers_wallet :
    (k u m : ℕ) (t : Table ℕ) (w : Wallet) (s : Db)
    → Distinct t
    → lookup u t ≡ some m
    → lookup u s.books.wallets ≡ some w
    → 0 < m
    → pos m ≤ℤ w.held_funds
    → lookup u (release_losers k t s).1.books.wallets ≡ some (released w (pos m))
unfolding release_losers
release_losers_wallet k u m [] w s d e f p q = absurd (cc e)
release_losers_wallet k u m ((j, x) ∷ t) w s d e f p q = elim (Bool-cases (u == j)) [
  | inl z ↦
      let ej : u ≡ j = (==_iff u j).0 z in
      let s₁ : Db = record s { books = (release_funds j (pos x) k s.books).1 } in
      release_losers_absent k u t s₁ (rw ej d.0)
      ∙ (rw
          (
            sym ej,
            same_amount u m j x t z e,
            release_funds_covered u (pos m) k w s.books f (omega arith) q,
          )
          (lookup-insert_self u (released w (pos m)) s.books.wallets))
  | inr z ↦
      let s₁ : Db = record s { books = (release_funds j (pos x) k s.books).1 } in
      release_losers_wallet k u m t w s₁ d.1 (ground arith)
        (release_funds_others j u (pos x) k s.books (ground arith) ∙ f) p q
]

-- Nothing but the books is written, and they stay sound, with as much money in them.
pub record Released (k : ℕ) (t : Table ℕ) (s : Db) : Type 0 where
  pub books : Books
  pub returns : release_losers k t s ≡ (ok tt, record s { books = books })
  pub sound : IsSound s.books → IsSound books × (total books.wallets ≡ total s.books.wallets)

attempt_release :
    (k u m : ℕ) (s : Books)
    → IsSound s
    → let s' = (release_funds u (pos m) k s).1 in IsSound s' × (total s'.wallets ≡ total s.wallets)
attempt_release k u m s v = elim (outcome_cases (release_funds u (pos m) k s)) [
  | inl (w, b, h) ↦
      let moves = subst (Moves s (pos 0)) h (release_funds-Moves u (pos m) k s v) in
      rw h (moves.0, grind (int_laws, moves.1))
  | inr (e, b, h) ↦
      let same = subst (Moves s (pos 0)) h (release_funds-Moves u (pos m) k s v) in
      rw (h, same) (v, refl)
]

pub release_losers-Released : (k : ℕ) (t : Table ℕ) (s : Db) → Released k t s
unfolding release_losers
release_losers-Released k [] s = record { books = s.books; returns = refl; sound = λ v. (v, refl) }
release_losers-Released k ((u, m) ∷ t) s =
    let s₁ : Db = record s { books = (release_funds u (pos m) k s.books).1 } in
    let rest = release_losers-Released k t s₁ in
    record {
      books = rest.books;
      returns = rest.returns;
      sound = λ v.
          let a = attempt_release k u m s.books v in let b = rest.sound a.0 in (b.0, b.1 ∙ a.1);
    }
