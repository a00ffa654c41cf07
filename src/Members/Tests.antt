-- ===== src/Members/Tests.antt =====
-- Users, their documents, ratings and settings at concrete rows.
use iron_loot.Common.{ℕ, ◌≡◌, refl, ◌⊎◌, true, false, none, some, [], ◌∷◌}
use iron_loot.Exec.{Error, ok, err}
use iron_loot.Table.{insert}
use iron_loot.Auth.Rows.{UserState}
use iron_loot.Market.Rows.{KycStatus}
use iron_loot.Members.Rows.{User, Profile, KycSubmission, Rating, Db}
use iron_loot.Members.Sellers.{enable_seller}
use iron_loot.Members.Sellers.Laws.{Qualifies, enabled, enable_seller_cases}
use iron_loot.Members.Settings.{
  Value, undefined, flag, text, object, Fields, end, field, update_settings,
}
use iron_loot.Members.Settings.Laws.{IsPlain, ArePlain, Updates, update_settings-Updates}

abbrev seller : User
seller = record {
  display_name = some (65 ∷ []);
  avatar_url = none;
  state = UserState.active;
  email_verified_at = some 5;
  is_seller = false;
  seller_enabled_at = none;
  created_at = 1;
}

abbrev profile : Profile
profile = record {
  phone = none;
  address = some (66 ∷ []);
  city = some (67 ∷ []);
  country = some (68 ∷ []);
  postal_code = none;
  legal_name = none;
}

abbrev documents : KycSubmission
documents = record {
  user_id = 2;
  status = KycStatus.approved;
  reviewed_by = some 9;
  review_notes = none;
}

abbrev first_rating : Rating
first_rating = record { order_id = 50; author_id = 1; target_id = 2; score = 5 }

abbrev db : Db
db = record {
  users = (2, seller) ∷ [];
  profiles = (2, profile) ∷ [];
  submissions = (4, documents) ∷ [];
  ratings = (3, first_rating) ∷ [];
  watchlist = [];
  auctions = [];
  orders = [];
  shipments = [];
  next_id = 10;
  now = 100;
}

enable_seller_cases_example :
    ((e : Error) × (enable_seller true 2 db ≡ (err e, db)))
    ⊎ ((u : User) × (p : Profile) × (true ≡ true)
        × (u.is_seller ≡ false)
        × Qualifies 2 u p db
        × (enable_seller true 2 db ≡ (ok 100, enabled 2 u db)))
enable_seller_cases_example = enable_seller_cases 2 db true

-- Names: 1 is the language, 2 the notifications, 3 by email, 4 inside the application.
abbrev stored : Fields
stored =
    field 1 (text (101 ∷ [])) (field 2 (object (field 3 (flag true) (field 4 (flag true) end))) end)

abbrev change : Fields
change = field 1 undefined (field 2 (object (field 3 (flag false) end)) end)

change-ArePlain : ArePlain change
unfolding IsPlain
change-ArePlain = (refl, tt, (refl, (refl, tt, tt), tt))

update_settings-Updates_example :
    (r : Value) × (update_settings 2 (object change) ((2, object stored) ∷ [])
      ≡ (ok r, insert 2 r ((2, object stored) ∷ [])))
    × ((n : ℕ) → Updates n (object stored) (object change) r)
update_settings-Updates_example =
    update_settings-Updates 2 stored change ((2, object stored) ∷ []) refl change-ArePlain
