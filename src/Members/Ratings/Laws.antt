-- ===== src/Members/Ratings/Laws.antt =====
-- Who has rated a sale: src/api/src/modules/ratings/ratings.service.ts.
use iron_loot.Common.{
  ℕ, ◌+◌, ◌≤◌, ◌≡◌, refl, ◌⊎◌, inl, inr, true, ◌||◌, none, some, List, ◌∷◌, arith, ◌==◌,
  if◌then◌else◌, Bool-cases, Option-cases, length, select, find_first,
}
use iron_loot.Exec.{Error, ok, err, not_found, bad_request, forbidden}
use iron_loot.Table.{lookup}
use iron_loot.Market.Rows.{Order}
use iron_loot.Market.Shipments.{shipment_of_order}
use iron_loot.Members.Rows.{Rating, Db}
use iron_loot.Members.Ratings.{
  is_by, is_delivered, check_rating, rating_create, write_rating, create,
}

-- No author has rated a sale twice.
abbrev pub IsUnique : List (ℕ × Rating) → Type 0
IsUnique rs = (order author : ℕ) → length (select (is_by order author) rs) ≤ 1

stored :
    (r : Rating) (s : Db)
    → find_first (is_by r.order_id r.author_id) s.ratings ≡ none
    → write_rating r s
      ≡ (ok s.next_id, record s { ratings = (s.next_id, r) ∷ s.ratings; next_id = s.next_id + 1 })
unfolding write_rating rating_create
stored r s h = rw h refl

-- The rater took part in the sale, it is delivered, the rater has not rated it before, and the rating
-- is about the other party.
pub record Rated (user k score : ℕ) (s : Db) : Type 0 where
  pub order : Order
  pub rating : Rating
  pub found : lookup k s.orders ≡ some order
  pub delivered : is_delivered (shipment_of_order k s.shipments) ≡ true
  pub first : find_first (is_by k user) s.ratings ≡ none
  pub parties :
      ((order.buyer_id ≡ user) × (rating.target_id ≡ order.seller_id))
      ⊎ ((order.seller_id ≡ user) × (rating.target_id ≡ order.buyer_id))
  pub written : (rating.order_id ≡ k) × (rating.author_id ≡ user) × (rating.score ≡ score)
  pub returns : create user k score s ≡ (
    ok s.next_id,
    record s { ratings = (s.next_id, rating) ∷ s.ratings; next_id = s.next_id + 1 },
  )

module _ (user k score : ℕ) (s : Db) where
  rating_of : Order → Rating
  rating_of o = record {
    order_id = k;
    author_id = user;
    target_id = if o.buyer_id == user then o.seller_id else o.buyer_id;
    score = score;
  }

  rated :
      (o : Order)
      → lookup k s.orders ≡ some o
      → ((o.buyer_id == user) || (o.seller_id == user)) ≡ true
      → is_delivered (shipment_of_order k s.shipments) ≡ true
      → find_first (is_by k user) s.ratings ≡ none
      → Rated user k score s
  unfolding create check_rating rating_of
  rated o f p d h = record {
    order = o;
    rating = rating_of o;
    found = f;
    delivered = d;
    first = h;
    parties = elim (Bool-cases (o.buyer_id == user)) [
      | inl q ↦ inl (ground arith, ground arith)
      | inr q ↦ inr (ground arith, ground arith)
    ];
    written = (refl, refl, refl);
    returns = ground (arith, stored (rating_of o) s h);
  }

  -- Rating a sale either throws and writes nothing, or the rater took part in the sale, it is
  -- delivered, the rater had not rated it, and one rating with the score, about the other party, is
  -- all that is written.
  pub create_cases : ((e : Error) × (create user k score s ≡ (err e, s))) ⊎ Rated user k score s
  unfolding create check_rating write_rating rating_create
  create_cases = elim (Option-cases (lookup k s.orders)) [
    | inl f ↦ inl (not_found, ground arith)
    | inr (o, f) ↦ elim (Bool-cases ((o.buyer_id == user) || (o.seller_id == user))) [
      | inr p ↦ inl (forbidden, ground arith)
      | inl p ↦ elim (Bool-cases (is_delivered (shipment_of_order k s.shipments))) [
        | inr d ↦ inl (bad_request, ground arith)
        | inl d ↦ elim (Option-cases (find_first (is_by k user) s.ratings)) [
          | inr (x, h) ↦ inl (bad_request, ground arith)
          | inl h ↦ inr (rated o f p d h)
        ]
      ]
    ]
  ]
