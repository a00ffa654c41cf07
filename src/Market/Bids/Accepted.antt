-- ===== src/Market/Bids/Accepted.antt =====
-- The two ways in which a bid ends, refused or accepted, as records.
use iron_loot.Common.{
  ℕ, ◌*◌, ◌≡◌, refl, ap, ◌∙◌, ◌⊎◌, inl, inr, Option, none, some, ◌∷◌, arith, Option-cases, pos,
}
use iron_loot.Exec.{Error, Result, ok, err, ⊤, pure, recover, ◌>>◌, auction_not_found}
use iron_loot.Table.{lookup, insert}
use iron_loot.Core.Auction.{AuctionStatus}
use iron_loot.Wallet.{release_funds}
use iron_loot.Wallet.Rows.{Books}
use iron_loot.Wallet.Cases.{Held, held_books, hold_funds_cases}
use iron_loot.Market.Rows.{Auction, Bid, Db, top_bid, get_number}
use iron_loot.Market.Bids.{
  check_bid, bid_on, bid_body, write_bid, release_previous, compensate, place_bid, extended,
}
use iron_loot.Market.Bids.Checks.{MayBid, check_bid-state, check_bid-MayBid}

abbrev pub bid_of : ℕ → ℕ → ℕ → Db → Bid
bid_of user k amount s = record {
  auction_id = k;
  bidder_id = user;
  amount = amount;
  created_at = s.books.now;
}

-- The auction that an accepted bid leaves.
abbrev pub raised : ℕ → Auction → Db → Auction
raised amount a s = record a {
  current_price = amount;
  status = AuctionStatus.active;
  ends_at = extended a.ends_at s.books.now (get_number s.settings.soft_close_window_sec 120 * 1000);
}

-- The database once the bid's own writes are done, before the outbid user's funds are released.
abbrev pub written : ℕ → ℕ → ℕ → Auction → Books → Db → Db
written user k amount a books s = record s {
  books = books;
  bids = bid_of user k amount s ∷ s.bids;
  auctions = insert k (raised amount a s) s.auctions;
}

pub record Accepted (user k amount : ℕ) (s : Db) : Type 0 where
  pub auction : Auction
  pub found : lookup k s.auctions ≡ some auction
  pub may_bid : MayBid user amount auction (top_bid k s.bids) s
  pub held : Held user (pos amount) k s.books
  pub returns : place_bid user k amount s ≡ (
    ok (bid_of user k amount s),
    (release_previous k
        (top_bid k s.bids)
        (written user k amount auction (held_books user (pos amount) k held.wallet s.books) s)).1,
  )

-- A refused bid: the exception, after the compensation.
pub record Refused (user k amount : ℕ) (s : Db) : Type 0 where
  pub error : Error
  pub returns :
      place_bid user k amount s
      ≡ (err error, record s { books = (release_funds user (pos amount) k s.books).1 })

pub finish :
    (k : ℕ) (previous : Option Bid) (b : Bid) (s : Db)
    → (release_previous k previous >> pure b) s ≡ (ok b, (release_previous k previous s).1)
unfolding release_previous
finish k none b s = refl
finish k (some c) b s = refl

check_bid_cases :
    (user amount : ℕ) (a : Auction) (previous : Option Bid) (s : Db)
    → ((check_bid user amount a previous s ≡ (ok tt, s)) × MayBid user amount a previous s)
      ⊎ ((e : Error) × (check_bid user amount a previous s ≡ (err e, s)))
check_bid_cases user amount a previous s =
    go (check_bid user amount a previous s).0 (check_bid user amount a previous s).1
      (check_bid-state user amount a previous s) (check_bid-MayBid user amount a previous s) refl
  where
    go :
        (r : Result ⊤) (s' : Db)
        → s' ≡ s
        → (r ≡ ok tt → MayBid user amount a previous s)
        → check_bid user amount a previous s ≡ (r, s')
        → ((check_bid user amount a previous s ≡ (ok tt, s)) × MayBid user amount a previous s)
          ⊎ ((e : Error) × (check_bid user amount a previous s ≡ (err e, s)))
    go (ok x) s' same may e = inl (e ∙ ap (λ t. (ok tt, t)) same, may refl)
    go (err x) s' same may e = inr (x, e ∙ ap (λ t. (err x, t)) same)

-- Every call ends in one of the two ways.
pub place_bid_cases :
    (user k amount : ℕ) (s : Db) → Accepted user k amount s ⊎ Refused user k amount s
unfolding place_bid bid_body bid_on write_bid compensate
place_bid_cases user k amount s = elim (Option-cases (lookup k s.auctions)) [
  | inl e ↦ inr (record { error = auction_not_found; returns = ground arith })
  | inr (a, e) ↦ elim (check_bid_cases user amount a (top_bid k s.bids) s) [
    | inr (x, c) ↦ inr (record { error = x; returns = rw (e, c) })
    | inl (c, may) ↦ elim (hold_funds_cases user (pos amount) k s.books) [
      | inr (x, h) ↦ inr (record { error = x; returns = rw (e, c, h) })
      | inl h ↦ inl (record {
        auction = a;
        found = e;
        may_bid = may;
        held = h;
        returns =
            rw (e, c, h.returns)
              (ap (recover (compensate user k amount))
                (finish k (top_bid k s.bids) (bid_of user k amount s) _));
      })
    ]
  ]
]
