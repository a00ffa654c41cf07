-- ===== src/Market/Bids/Funds.antt =====
-- What a bid does to the wallets: of the bidder, of the user who is outbid, and of the platform.
use iron_loot.Common.{
  ℕ, ◌+◌, ◌≤◌, ◌<◌, ◌≡◌, refl, sym, ap, ◌∙◌, ◌≢◌, inl, inr, false, Option, none, some, arith, ◌==◌,
  ℤ, pos, ◌≤ℤ◌, int_laws,
}
use iron_loot.Exec.{Error, Result, ok, err, recover}
use iron_loot.Table.{Table, lookup, insert, lookup-insert, lookup-insert_self, lookup-insert_ne}
use iron_loot.Core.Auction.{AuctionStatus}
use iron_loot.Wallet.Rows.{Wallet, Books}
use iron_loot.Wallet.Posting.{total}
use iron_loot.Wallet.Effects.{IsSound, Moves}
use iron_loot.Wallet.CallEffects.{hold_funds-Moves, release_funds-Moves}
use iron_loot.Wallet.Cases.{Held, held, held_books, released, release_funds_covered}
use iron_loot.Wallet.{release_funds}
use iron_loot.Market.Rows.{Auction, Bid, Db, top_bid}
use iron_loot.Market.Bids.{
  place_bid, bid_body, bid_on, write_bid, compensate, release_previous, is_bid_of,
}
use iron_loot.Market.Bids.Checks.{min_increment, check_bid-published}
use iron_loot.Market.Bids.Accepted.{place_bid_cases, finish, bid_of, written}

-- Sound books, with the same money on the platform.
abbrev Kept : Books → Books → Type 0
Kept b b' = IsSound b' × (total b'.wallets ≡ total b.wallets)

release-Kept : (u : ℕ) (x : ℤ) (k : ℕ) (b : Books) → IsSound b → Kept b (release_funds u x k b).1
release-Kept u x k b v = go (release_funds u x k b) (release_funds-Moves u x k b v)
  where
    go : (m : Result Wallet × Books) → Moves b (pos 0) m → Kept b m.1
    go (ok w, b') h = (h.0, grind (int_laws, h))
    go (err e, b') h = rw h (v, refl)

held-Kept :
    (u : ℕ) (x : ℤ) (k : ℕ) (b : Books)
    → (h : Held u x k b) → IsSound b
    → Kept b (held_books u x k h.wallet b)
held-Kept u x k b h v =
    let m = rw h.returns at (hold_funds-Moves u x k b v) in (m.0, grind (int_laws, m))

release_previous-Kept :
    (k : ℕ) (previous : Option Bid) (s : Db)
    → IsSound s.books
    → Kept s.books (release_previous k previous s).1.books
unfolding release_previous
release_previous-Kept k none s v = (v, refl)
release_previous-Kept k (some b) s v = release-Kept b.bidder_id (pos b.amount) k s.books v

-- Whether a bid is accepted or refused, the wallets and the ledger stay sound and the money on the
-- platform is the same.
pub place_bid-IsSound :
    (user k amount : ℕ) (s : Db)
    → IsSound s.books
    → let s' = (place_bid user k amount s).1 in
      IsSound s'.books × (total s'.books.wallets ≡ total s.books.wallets)
place_bid-IsSound user k amount s v = elim (place_bid_cases user k amount s) [
  | inr ref ↦ rw ref.returns (release-Kept user (pos amount) k s.books v)
  | inl acc ↦
      let books = held_books user (pos amount) k acc.held.wallet s.books in
      let h = held-Kept user (pos amount) k s.books acc.held v in
      let r =
        release_previous-Kept k (top_bid k s.bids) (written user k amount acc.auction books s)
          h.0 in
      rw acc.returns (r.0, r.1 ∙ h.1)
]

-- A refused bid of a positive amount leaves the bidder's wallet, where it holds as much for
-- whatever bids, with that amount moved from held to available, compared to before the call.
pub place_bid-refused_releases :
    (user k amount : ℕ) (w : Wallet) (s : Db) {e : Error}
    → (place_bid user k amount s).0 ≡ err e
    → lookup user s.books.wallets ≡ some w
    → 0 < amount
    → pos amount ≤ℤ w.held_funds
    → lookup user (place_bid user k amount s).1.books.wallets ≡ some (released w (pos amount))
place_bid-refused_releases user k amount w s h e p q = elim (place_bid_cases user k amount s) [
  | inl acc ↦ absurd (cc (acc.returns))
  | inr ref ↦ rw (
    ref.returns,
    release_funds_covered user (pos amount) k w s.books e (omega arith) q,
    lookup-insert_self,
  )
]

release_previous_wallets :
    (k : ℕ) (b : Bid) (w : Wallet) (s : Db)
    → lookup b.bidder_id s.books.wallets ≡ some w
    → 0 < b.amount
    → pos b.amount ≤ℤ w.held_funds
    → (release_previous k (some b) s).1.books.wallets
      ≡ insert b.bidder_id (released w (pos b.amount)) s.books.wallets
unfolding release_previous
release_previous_wallets k b w s e p q =
    rw (release_funds_covered b.bidder_id (pos b.amount) k w s.books e (omega (arith, p)) q)

outbid_wallets :
    (user other : ℕ) (v v' w : Wallet) (x y : ℕ) (t : Table Wallet)
    → (other == user) ≡ false
    → lookup user t ≡ some v
    → lookup user t ≡ some v'
    → let t' = insert other (released w (pos y)) (insert user (held v' (pos x)) t) in
      (lookup user t' ≡ some (held v (pos x))) × (lookup other t' ≡ some (released w (pos y)))
outbid_wallets user other v v' w x y t own e e' =
    let t₁ = insert user (held v' (pos x)) t in
    (
      lookup-insert_ne user other _ t₁ (λ q. ne (sym q))
          ∙ lookup-insert_self user _ t
          ∙ ap (λ (u : Wallet). some (held u (pos x))) same,
      lookup-insert_self other _ t₁,
    )
  where
    ne : other ≢ user
    ne = ground arith

    same : v' ≡ v
    same = cc (sym e' ∙ e)

-- A bid that is accepted over another user's bid moves its amount from available to held in the
-- bidder's wallet, and, where the other's wallet holds that bid's amount, moves it back from held
-- to available.
pub place_bid-outbids :
    (user k amount : ℕ) (b c : Bid) (v w : Wallet) (s : Db)
    → (place_bid user k amount s).0 ≡ ok b
    → top_bid k s.bids ≡ some c
    → lookup user s.books.wallets ≡ some v
    → lookup c.bidder_id s.books.wallets ≡ some w
    → 0 < c.amount
    → pos c.amount ≤ℤ w.held_funds
    → let t = (place_bid user k amount s).1.books.wallets in
      (lookup user t ≡ some (held v (pos amount)))
      × (lookup c.bidder_id t ≡ some (released w (pos c.amount)))
place_bid-outbids user k amount b c v w s h top ev ew p q = elim (place_bid_cases user k amount s) [
  | inr ref ↦ absurd (cc (ref.returns))
  | inl acc ↦
      let aw = acc.held.wallet in
      let own : (c.bidder_id == user) ≡ false = rw top at acc.may_bid.not_own_bid in
      let books = held_books user (pos amount) k aw s.books in
      let s₁ = written user k amount acc.auction books s in
      let kept : lookup c.bidder_id books.wallets ≡ some w =
        ground (arith, lookup-insert c.bidder_id user (held aw (pos amount)) s.books.wallets) in
      rw (acc.returns, top, release_previous_wallets k c w s₁ kept p q)
        (outbid_wallets user c.bidder_id v aw w amount c.amount s.books.wallets own ev
          acc.held.found)
]

-- A seller's own bid on the seller's auction is accepted while the auction is published and not yet
-- active, if it has not ended, the bid exceeds the price by the increment, the seller does not lead
-- and the funds can be held.
pub place_bid-seller_accepted :
    (k amount : ℕ) (a : Auction) (s : Db) (h : Held a.seller_id (pos amount) k s.books)
    → lookup k s.auctions ≡ some a
    → a.status ≡ AuctionStatus.published
    → s.books.now ≤ a.ends_at
    → a.current_price + min_increment s ≤ amount
    → is_bid_of a.seller_id (top_bid k s.bids) ≡ false
    → (place_bid a.seller_id k amount s).0 ≡ ok (bid_of a.seller_id k amount s)
unfolding place_bid bid_body bid_on write_bid
place_bid-seller_accepted k amount a s h e published over price own =
    let seller = a.seller_id in
    let previous = top_bid k s.bids in
    rw (e, check_bid-published seller amount a previous s published over price own, h.returns)
      (ap (λ m. (recover (compensate seller k amount) m).0)
        (finish k previous (bid_of seller k amount s) _))
