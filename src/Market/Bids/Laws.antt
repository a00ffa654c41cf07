-- ===== src/Market/Bids/Laws.antt =====
-- What a bid does to the auctions and to the list of bids.
use iron_loot.Common.{
  ℕ, ◌+◌, ◌≤◌, ◌≡◌, refl, inl, inr, true, Option, none, some, ◌∷◌, arith, ◌==◌, ==_iff, Bool-cases,
}
use iron_loot.Exec.{ok}
use iron_loot.Table.{lookup, insert, lookup-insert}
use iron_loot.Market.Rows.{Auction, Bid, Db, top_bid, higher}
use iron_loot.Market.Bids.{place_bid, release_previous, is_open_status}
use iron_loot.Market.Bids.Checks.{min_increment}
use iron_loot.Market.Bids.Accepted.{Accepted, Refused, place_bid_cases, raised, bid_of, written}

-- Releasing the outbid user's funds touches the books alone.
pub release_previous-same :
    (k : ℕ) (previous : Option Bid) (s : Db)
    → let s' = (release_previous k previous s).1 in s' ≡ record s { books = s'.books }
unfolding release_previous
release_previous-same k none s = refl
release_previous-same k (some b) s = refl

-- What an accepted bid did to the auction of the bid.
pub record Raised (user k amount : ℕ) (a : Auction) (s s' : Db) (b : Bid) : Type 0 where
  pub open_status : is_open_status a.status ≡ true
  pub not_over : s.books.now ≤ a.ends_at
  pub increment : a.current_price + min_increment s ≤ amount
  pub new_bid : b ≡ bid_of user k amount s
  pub bids : s'.bids ≡ b ∷ s.bids
  pub auctions : s'.auctions ≡ insert k (raised amount a s) s.auctions
  pub not_sooner : a.ends_at ≤ (raised amount a s).ends_at

-- The result of a call is one of the two, so a bid that is returned was accepted.
pub returned-Accepted :
    (user k amount : ℕ) (s : Db) {b : Bid}
    → (place_bid user k amount s).0 ≡ ok b
    → Accepted user k amount s
returned-Accepted user k amount s h = elim (place_bid_cases user k amount s) [
  | inl acc ↦ acc
  | inr ref ↦ absurd (cc (ref.returns))
]

bids_of_Accepted :
    (user k amount : ℕ) (s : Db)
    → (acc : Accepted user k amount s)
    → (place_bid user k amount s).1.bids ≡ bid_of user k amount s ∷ s.bids
bids_of_Accepted user k amount s acc = rw (
  acc.returns,
  release_previous-same k (top_bid k s.bids) (written user k amount acc.auction _ s),
)

auctions_of_Accepted :
    (user k amount : ℕ) (s : Db)
    → (acc : Accepted user k amount s)
    → (place_bid user k amount s).1.auctions ≡ insert k (raised amount acc.auction s) s.auctions
auctions_of_Accepted user k amount s acc = rw (
  acc.returns,
  release_previous-same k (top_bid k s.bids) (written user k amount acc.auction _ s),
)

-- A bid that returns met an auction that is published or active and not over, and raised its price
-- by at least the configured increment; it is the newest bid and the auction's price, and the
-- auction does not end sooner.
pub place_bid-Raised :
    (user k amount : ℕ) (s : Db) {b : Bid}
    → (place_bid user k amount s).0 ≡ ok b
    → (a : Auction) × (lookup k s.auctions ≡ some a)
      × Raised user k amount a s (place_bid user k amount s).1 b
place_bid-Raised user k amount s {b} h =
    let acc = returned-Accepted user k amount s h in
    let new : b ≡ bid_of user k amount s = cc (acc.returns) in
    (
      acc.auction,
      acc.found,
      record {
        open_status = acc.may_bid.open_status;
        not_over = acc.may_bid.not_over;
        increment = acc.may_bid.raises;
        new_bid = new;
        bids = rw new (bids_of_Accepted user k amount s acc);
        auctions = auctions_of_Accepted user k amount s acc;
        not_sooner = ground arith;
      },
    )

same_of_Refused :
    (user k amount : ℕ) (s : Db)
    → Refused user k amount s
    → ((place_bid user k amount s).1.bids ≡ s.bids)
      × ((place_bid user k amount s).1.auctions ≡ s.auctions)
same_of_Refused user k amount s ref = (rw ref.returns, rw ref.returns)

-- The price of every auction that has bids is its highest bid.
pub record IsPriced (s : Db) : Type 0 where
  pub priced :
      (k : ℕ) (a : Auction) (b : Bid)
      → lookup k s.auctions ≡ some a
      → top_bid k s.bids ≡ some b
      → b.amount ≡ a.current_price

higher-raised :
    (b : Bid) (o : Option Bid) (n : ℕ)
    → ((c : Bid) → o ≡ some c → c.amount ≡ n)
    → n ≤ b.amount
    → higher b o ≡ b
higher-raised b none n h k = refl
higher-raised b (some c) n h k = ground (arith, h c refl)

priced_of_Accepted :
    (user k amount : ℕ) (s : Db)
    → IsPriced s
    → (acc : Accepted user k amount s) (j : ℕ) (a : Auction) (b : Bid)
    → lookup j (insert k (raised amount acc.auction s) s.auctions) ≡ some a
    → top_bid j (bid_of user k amount s ∷ s.bids) ≡ some b
    → b.amount ≡ a.current_price
priced_of_Accepted user k amount s p acc j a b e t = elim (Bool-cases (k == j)) [
  | inl q ↦ ground (
    arith,
    (==_iff k j).0 q,
    lookup-insert j k (raised amount acc.auction s) s.auctions,
    higher-raised (bid_of user k amount s) (top_bid k s.bids) acc.auction.current_price
        (λ c. p.priced k acc.auction c acc.found) (omega (arith, acc.may_bid.raises)),
  )
  | inr q ↦
      ground (arith, lookup-insert j k (raised amount acc.auction s) s.auctions, p.priced j a b)
]

-- Bids keep the price of every auction that has bids equal to its highest bid, whether they are
-- accepted or refused.
pub place_bid-IsPriced :
    (user k amount : ℕ) (s : Db) → IsPriced s → IsPriced (place_bid user k amount s).1
place_bid-IsPriced user k amount s p = elim (place_bid_cases user k amount s) [
  | inr ref ↦
      let same = same_of_Refused user k amount s ref in
      record { priced = λ j a b. rw (same.0, same.1) (p.priced j a b) }
  | inl acc ↦
      let bids = bids_of_Accepted user k amount s acc in
      let auctions = auctions_of_Accepted user k amount s acc in
      record {
        priced = λ j a b. rw (bids, auctions) (priced_of_Accepted user k amount s p acc j a b);
      }
]
