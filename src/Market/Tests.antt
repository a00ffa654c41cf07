-- ===== src/Market/Tests.antt =====
-- Runs of the marketplace's services, and their theorems at them.
use iron_loot.Common.{◌≡◌, refl, some, arith, pos, ◌+ℤ◌, ◌-ℤ◌}
use iron_loot.Exec.{ok, err, auction_not_found}
use iron_loot.Table.{lookup}
use iron_loot.Wallet.Cases.{Held, held, released}
use iron_loot.Wallet.{hold_funds}
use iron_loot.Market.Rows.{Auction}
use iron_loot.Core.WalletCalculation.{can_lock_funds}
use iron_loot.Core.Bid.{validate}
use iron_loot.Wallet.{release_funds}
use iron_loot.Market.Samples.{bidder, rival, merchant, first_bid, db}
use iron_loot.Market.Bids.{
  place_bid, bid_body, bid_on, check_bid, write_bid, compensate, release_previous,
}
use iron_loot.Market.Bids.Accepted.{bid_of}
use iron_loot.Market.Bids.Laws.{Raised, place_bid-Raised}
use iron_loot.Market.Bids.Funds.{place_bid-refused_releases, place_bid-outbids}

outbid_ok : (place_bid 2 7 6000 db).0 ≡ ok (bid_of 2 7 6000 db)
unfolding place_bid bid_body bid_on check_bid validate write_bid compensate release_previous
    hold_funds release_funds can_lock_funds ◌+ℤ◌ ◌-ℤ◌
outbid_ok = refl

place_bid-Raised_example :
    (a : Auction) × (lookup 7 db.auctions ≡ some a)
    × Raised 2 7 6000 a db (place_bid 2 7 6000 db).1 (bid_of 2 7 6000 db)
place_bid-Raised_example = place_bid-Raised 2 7 6000 db outbid_ok

place_bid-outbids_example :
    let t = (place_bid 2 7 6000 db).1.books.wallets in
    (lookup 2 t ≡ some (held rival (pos 6000))) × (lookup 1 t ≡ some (released bidder (pos 5000)))
place_bid-outbids_example =
    place_bid-outbids 2 7 6000 (bid_of 2 7 6000 db) first_bid rival bidder db outbid_ok refl refl
      refl (omega arith) (omega arith)

-- User 1, who holds 50.00 for auction 7, names an auction that does not exist.
unknown_refused : (place_bid 1 6 5000 db).0 ≡ err auction_not_found
unfolding place_bid bid_body bid_on check_bid validate write_bid compensate release_previous
    hold_funds release_funds can_lock_funds ◌+ℤ◌ ◌-ℤ◌
unknown_refused = refl

place_bid-refused_releases_example :
    lookup 1 (place_bid 1 6 5000 db).1.books.wallets ≡ some (released bidder (pos 5000))
place_bid-refused_releases_example =
    place_bid-refused_releases 1 6 5000 bidder db unknown_refused refl (omega arith) (omega arith)

seller_held : Held 3 (pos 6000) 8 db.books
unfolding hold_funds can_lock_funds ◌+ℤ◌ ◌-ℤ◌
seller_held = record {
  wallet = merchant;
  found = refl;
  positive = omega arith;
  active = refl;
  covered = omega arith;
  returns = refl;
}
