-- ===== src/Market/Auctions/Laws.antt =====
-- What the auctions' methods guarantee.
use iron_loot.Common.{
  ℕ, ◌+◌, ◌*◌, ◌≤◌, ◌<◌, ◌≡◌, refl, ◌⊎◌, inl, inr, Bool, true, false, ◌&&◌, none, some, [], ◌∷◌,
  map, arith, leb, ◌==◌, ==_iff, Bool-cases,
}
use iron_loot.Exec.{Error, ok, err, forbidden, validation}
use iron_loot.Table.{Table, lookup, insert, lookup-insert_self}
use Prim.Native.String.{String}
use iron_loot.Core.Auction.{AuctionStatus, same_status, can_transition}
use iron_loot.Market.Rows.{Auction, Db}
use iron_loot.Market.Auctions.{
  UpdateAuctionDto, update, publish, published_auction, get_or, changed,
}
use iron_loot.Market.Scheduler.{start_scheduled_auctions, started}

-- The statuses from which the seller may publish.
abbrev pub Publishable : AuctionStatus → Type 0
Publishable status =
    (status ≡ AuctionStatus.draft)
    ⊎ (status ≡ AuctionStatus.pending_moderation)
    ⊎ (status ≡ AuctionStatus.suspended)

Publishable-of :
    (s : AuctionStatus) → can_transition s AuctionStatus.published ≡ true → Publishable s
unfolding can_transition
Publishable-of s h = ground arith

-- What an auction is once the seller has published it.
pub data PublishedAs (at : ℕ) (a p : Auction) : Bool → Type 0 where
  waits : p ≡ record a { status = AuctionStatus.pending_moderation } → PublishedAs at a p true
  starts :
      p.status ≡ AuctionStatus.published
      → p.starts_at ≡ at
      → (a.starts_at < a.ends_at → p.ends_at + a.starts_at ≡ at + a.ends_at)
      → (a.ends_at ≤ a.starts_at → p.ends_at ≡ at + 7 * 24 * 60 * 60 * 1000)
      → PublishedAs at a p false

published_as :
    (moderated : Bool) (a : Auction) (at : ℕ)
    → PublishedAs at a (published_auction moderated a at) moderated
published_as true a at = PublishedAs.waits refl
published_as false a at = PublishedAs.starts refl refl (λ h. ground arith) (λ h. ground arith)

-- Only its seller publishes an auction, from the statuses draft, pending moderation and suspended.
-- With moderation it waits as it is; without, it starts at once and runs as long as was planned, or
-- a week if its end was not after its start. Any other call on an auction that exists throws and
-- writes nothing.
pub publish-PublishedAs :
    (user k : ℕ) (a : Auction) (s : Db)
    → lookup k s.auctions ≡ some a
    → ((p : Auction) × (publish user k s ≡ (ok p, record s { auctions = insert k p s.auctions }))
        × PublishedAs s.books.now a p s.settings.require_auction_moderation
        × (a.seller_id ≡ user)
        × Publishable a.status)
      ⊎ ((e : Error) × (publish user k s ≡ (err e, s)))
unfolding publish
publish-PublishedAs user k a s e = elim (Bool-cases (a.seller_id == user)) [
  | inr q ↦ inr (forbidden, ground arith)
  | inl q ↦ elim (Bool-cases (can_transition a.status AuctionStatus.published)) [
    | inr t ↦ inr (validation, ground arith)
    | inl t ↦ inl (
      published_auction s.settings.require_auction_moderation a s.books.now,
      ground arith,
      published_as s.settings.require_auction_moderation a s.books.now,
      (==_iff a.seller_id user).0 q,
      Publishable-of a.status t,
    )
  ]
]

-- The seller of a suspended auction publishes it again, where no moderation is required: the call
-- returns the auction as published.
pub publish-suspended :
    (k : ℕ) (a : Auction) (s : Db)
    → lookup k s.auctions ≡ some a
    → a.status ≡ AuctionStatus.suspended
    → s.settings.require_auction_moderation ≡ false
    → (publish a.seller_id k s).0 ≡ ok (published_auction false a s.books.now)
unfolding publish can_transition
publish-suspended k a s e h m = ground arith

-- An update of an auction that returns sets the starting price that was given, and leaves the
-- current price, by which bids are measured, as well as the seller and the status, as they were.
pub update-keeps_price :
    (user k : ℕ) (dto : UpdateAuctionDto) (slug : String) (a : Auction) (s : Db)
    → lookup k s.auctions ≡ some a
    → (update user k dto slug s).0 ≡ ok tt
    → (a' : Auction) × (lookup k (update user k dto slug s).1.auctions ≡ some a')
      × (a'.starting_price ≡ get_or dto.starting_price a.starting_price)
      × (a'.current_price ≡ a.current_price)
      × (a'.seller_id ≡ a.seller_id)
      × (a'.status ≡ a.status)
unfolding update
update-keeps_price user k dto slug a s e h = elim (Bool-cases (a.seller_id == user)) [
  | inr q ↦ absurd (ground arith)
  | inl q ↦ elim (Bool-cases (can_transition a.status AuctionStatus.published)) [
    | inr t ↦ absurd (ground arith)
    | inl t ↦
        let a' = changed dto slug a in
        (a', ground (arith, lookup-insert_self k a' s.auctions), refl, refl, refl, refl)
  ]
]

published_of :
    (s : AuctionStatus) → same_status s AuctionStatus.published ≡ true → s ≡ AuctionStatus.published
published_of s h = ground arith

may_start :
    (s : AuctionStatus)
    → same_status s AuctionStatus.published ≡ true
    → can_transition s AuctionStatus.active ≡ true
unfolding can_transition
may_start s h = ground arith

lookup-map :
    (f : Auction → Auction) (k : ℕ) (t : Table Auction)
    → lookup k (map (λ row. (row.0, f row.1)) t)
      ≡ elim (lookup k t) [ none ↦ none | some a ↦ some (f a) ]
lookup-map f k [] = refl
lookup-map f k ((j, a) ∷ t) = ground (arith, lookup-map f k t)

-- The scheduler starts exactly the published auctions whose start has come, which the state machine
-- allows, and leaves every other auction as it is.
pub start_scheduled_auctions_lem :
    (k : ℕ) (a : Auction) (s : Db)
    → lookup k s.auctions ≡ some a
    → ((a.status ≡ AuctionStatus.published)
        × (a.starts_at ≤ s.books.now)
        × (can_transition a.status AuctionStatus.active ≡ true)
        × (lookup k (start_scheduled_auctions s).1.auctions
            ≡ some (record a { status = AuctionStatus.active })))
      ⊎ (((a.status ≡ AuctionStatus.published → s.books.now < a.starts_at)
          × (lookup k (start_scheduled_auctions s).1.auctions ≡ some a)))
unfolding start_scheduled_auctions
start_scheduled_auctions_lem k a s e =
    elim (Bool-cases
      (same_status a.status AuctionStatus.published && leb a.starts_at s.books.now)) [
        | inl q ↦ inl (
          published_of a.status (ground arith),
          ground arith,
          may_start a.status (ground arith),
          ground (arith, lookup-map (started s.books.now) k s.auctions),
        )
        | inr q ↦
            inr (λ p. ground arith, ground (arith, lookup-map (started s.books.now) k s.auctions))
      ]
