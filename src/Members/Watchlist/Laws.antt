-- ===== src/Members/Watchlist/Laws.antt =====
-- The auctions that a user watches, as a set of pairs.
use iron_loot.Common.{
  ℕ, ◌≡◌, refl, inl, inr, true, false, ◌&&◌, ◌||◌, not, some, List, [], ◌∷◌, arith, ◌==◌,
  Bool-cases,
}
use iron_loot.Exec.{ok}
use iron_loot.Table.{lookup}
use iron_loot.Market.Rows.{Auction}
use iron_loot.Members.Rows.{Db}
use iron_loot.Members.Watchlist.{is_watched, unwatched, add, remove}

module _ (u a : ℕ) where
  unwatched_absent : (ps : List (ℕ × ℕ)) → is_watched u a ps ≡ false → unwatched u a ps ≡ ps
  unfolding is_watched unwatched
  unwatched_absent [] h = refl
  unwatched_absent ((v, b) ∷ ps) h = ground (arith, unwatched_absent ps (ground arith))

  is_watched-unwatched :
      (j b : ℕ) (ps : List (ℕ × ℕ))
      → is_watched j b (unwatched u a ps) ≡ (not ((j == u) && (b == a)) && is_watched j b ps)
  unfolding is_watched unwatched
  is_watched-unwatched j b [] = ground arith
  is_watched-unwatched j b ((v, c) ∷ ps) = ground (arith, is_watched-unwatched j b ps)

  is_watched_same :
      (j b : ℕ) (ps : List (ℕ × ℕ))
      → ((j == u) && (b == a)) ≡ true
      → is_watched j b ps ≡ is_watched u a ps
  unfolding is_watched
  is_watched_same j b [] h = refl
  is_watched_same j b ((v, c) ∷ ps) h = ground (arith, is_watched_same j b ps h)

  module _ (s : Db) (x : Auction) (f : lookup a s.auctions ≡ some x) where
    -- Watching an auction that exists adds the pair of user and auction, and no other.
    pub is_watched-add :
        ((add u a s).0 ≡ ok tt)
        × ((j b : ℕ)
            → is_watched j b (add u a s).1.watchlist
              ≡ (((j == u) && (b == a)) || is_watched j b s.watchlist))
    unfolding add is_watched
    is_watched-add = elim (Bool-cases (is_watched u a s.watchlist)) [
      | inl q ↦ (
        ground arith,
        λ j b. elim (Bool-cases ((j == u) && (b == a))) [
          | inl e ↦ ground (arith, is_watched_same j b s.watchlist e)
          | inr e ↦ ground arith
        ],
      )
      | inr q ↦ (ground arith, λ j b. ground arith)
    ]

    -- Watching it and no longer watching it leaves everything as it was, where the user did not watch
    -- it before.
    pub remove-add : is_watched u a s.watchlist ≡ false → remove u a (add u a s).1 ≡ (ok tt, s)
    unfolding add remove is_watched unwatched
    remove-add h = ground (arith, unwatched_absent s.watchlist h)

  -- To stop watching always returns, and takes away the pair of user and auction, and no other.
  pub is_watched-remove :
      (s : Db)
      → ((remove u a s).0 ≡ ok tt)
        × ((j b : ℕ)
            → is_watched j b (remove u a s).1.watchlist
              ≡ (not ((j == u) && (b == a)) && is_watched j b s.watchlist))
  unfolding remove
  is_watched-remove s = elim (Bool-cases (is_watched u a s.watchlist)) [
    | inl q ↦ (ground arith, λ j b. ground (arith, is_watched-unwatched j b s.watchlist))
    | inr q ↦ (
      ground arith,
      λ j b. elim (Bool-cases ((j == u) && (b == a))) [
        | inl e ↦ ground (arith, is_watched_same j b s.watchlist e)
        | inr e ↦ ground arith
      ],
    )
  ]
