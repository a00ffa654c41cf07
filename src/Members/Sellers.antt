-- ===== src/Members/Sellers.antt =====
-- src/api/src/modules/users/users.service.ts: profiles, and how a user becomes a seller.
pub mod Laws
use iron_loot.Common.{
  ℕ, zero, suc, ◌+◌, ◌-◌, ◌*◌, ◌/◌, ◌%◌, ◌≤◌, ◌<◌, ◌≡◌, refl, sym, ap, ◌∙◌, ◌≢◌, ◌⊎◌, inl, inr,
  Bool, true, false, ◌&&◌, ◌||◌, not, Option, none, some, List, [], ◌∷◌, ◌++◌, map, arith, ltb, leb,
  ◌==◌, if◌then◌else◌, ==_iff, Bool-cases, Option-cases, ℤ, pos, negsuc, pos_part, neg_part, sub_ℕ,
  ◌+ℤ◌, ◌-ℤ◌, ◌≤ℤ◌, ◌<ℤ◌, ltb_ℤ, leb_ℤ, min_ℤ, max_ℤ, +ℤ_parts, -ℤ_parts, eq_of_parts, int_laws,
  All, length, select, find_first,
}
use iron_loot.Exec.{
  Error, Result, ok, err, ⊤, Exec, pure, raise, gets, or_raise, settle, transaction, recover, catch,
  raise_if, modify, continue, ◌>>=◌, ◌>>◌, attempt, not_found, bad_request, forbidden, validation,
  insufficient_balance, auction_not_found, auction_not_active, bid_too_low, bid_on_own_auction,
  order_not_found, user_not_found, unique_violation, record_missing, outcome_cases,
  connection_failed, invalid_credentials, email_already_exists, user_not_verified, user_suspended,
  user_banned, token_expired, token_invalid, conflict,
}
use iron_loot.Table.{
  Table, lookup, insert, lookup-insert, lookup-insert_self, lookup-insert_ne, find_first-insert,
  find_first_holds,
}
use iron_loot.Auth.Rows.{UserState}
use iron_loot.Market.Withdrawals.{is_approved}
use iron_loot.Methods.Rows.{Text}
use iron_loot.Members.Rows.{User, Profile, Db, now, find_user, user_update}
use iron_loot.Members.Kyc.{enabled_at, get_user_kyc_status}

abbrev pub is_active : UserState → Bool
is_active UserState.active = true
is_active _ = false

-- A value of JavaScript that is neither `null` nor the empty text.
abbrev pub given : Option Text → Bool
given none = false
given (some []) = false
given (some (c ∷ cs)) = true

abbrev pub is_set : Option ℕ → Bool
is_set none = false
is_set (some a) = true

pub data Requirement : Type 0 where
  active_state verified_email shown_name address city country : Requirement

abbrev unless : Bool → Requirement → List Requirement → List Requirement
unless true r rest = rest
unless false r rest = r ∷ rest

abbrev part : (Profile → Option Text) → Option Profile → Option Text
part field none = none
part field (some p) = field p

unfoldable pub check_seller_requirements : User → Option Profile → List Requirement
check_seller_requirements u p = unless (is_active u.state) active_state (
    unless (is_set u.email_verified_at) verified_email (
      unless (given u.display_name) shown_name (
        unless (given (part (λ x. x.address) p)) address (
          unless (given (part (λ x. x.city) p)) city
            (unless (given (part (λ x. x.country) p)) country [])))))

abbrev pub is_none_missing : List Requirement → Bool
is_none_missing [] = true
is_none_missing (r ∷ rs) = false

unfoldable pub enable_seller : Bool → ℕ → Exec Db ℕ
enable_seller accept_terms user_id = do
  raise_if (not accept_terms) validation
  u ← or_raise (← find_user user_id) user_not_found
  raise_if u.is_seller conflict
  p ← gets (λ s. lookup user_id s.profiles)
  raise_if (not (is_none_missing (check_seller_requirements u p))) validation
  kyc_status ← get_user_kyc_status user_id
  raise_if (not (is_approved kyc_status)) validation
  at ← now
  user_update user_id (enabled_at at)
  pure at

pub record VerificationStatusDto : Type 0 where
  pub email_verified : Bool
  pub state : UserState
  pub can_enable_seller : Bool
  pub missing_requirements : List Requirement

unfoldable pub get_verification_status : ℕ → Exec Db VerificationStatusDto
get_verification_status user_id = do
  u ← or_raise (← find_user user_id) user_not_found
  p ← gets (λ s. lookup user_id s.profiles)
  let missing = check_seller_requirements u p
  pure (record {
    email_verified = is_set u.email_verified_at;
    state = u.state;
    can_enable_seller = is_none_missing missing;
    missing_requirements = missing;
  })

-- What a request gives of a text: nothing, or `null`, or a text.
abbrev pub Patch : Type 0
Patch = Option (Option Text)

pub record ProfilePatch : Type 0 where
  pub phone : Patch
  pub address : Patch
  pub city : Patch
  pub country : Patch
  pub postal_code : Patch
  pub legal_name : Patch

-- The part on the profile is `none` also where it has no keys.
pub record UpdateProfileDto : Type 0 where
  pub display_name : Patch
  pub avatar_url : Patch
  pub profile : Option ProfilePatch

abbrev pub over : Patch → Option Text → Option Text
over none old = old
over (some t) old = t

abbrev no_profile : Profile
no_profile = record {
  phone = none;
  address = none;
  city = none;
  country = none;
  postal_code = none;
  legal_name = none;
}

abbrev pub or_empty : Option Profile → Profile
or_empty none = no_profile
or_empty (some p) = p

abbrev pub merged : ProfilePatch → Profile → Profile
merged new old = record {
  phone = over new.phone old.phone;
  address = over new.address old.address;
  city = over new.city old.city;
  country = over new.country old.country;
  postal_code = over new.postal_code old.postal_code;
  legal_name = over new.legal_name old.legal_name;
}

abbrev profile_upsert : ℕ → ProfilePatch → Exec Db ⊤
profile_upsert user_id new = modify (λ s. record s {
  profiles = insert user_id (merged new (or_empty (lookup user_id s.profiles))) s.profiles;
})

abbrev is_given : Patch → Bool
is_given none = false
is_given (some t) = true

abbrev renamed : UpdateProfileDto → User → User
renamed dto u = record u {
  display_name = over dto.display_name u.display_name;
  avatar_url = over dto.avatar_url u.avatar_url;
}

unfoldable pub update_profile : ℕ → UpdateProfileDto → Exec Db ⊤
update_profile user_id dto = do
  u ← or_raise (← find_user user_id) user_not_found
  raise_if (not (is_active u.state)) forbidden
  transaction do
    if is_given dto.display_name || is_given dto.avatar_url
        then user_update user_id (renamed dto)
        else pure tt
    elim dto.profile [ none ↦ pure tt | some new ↦ profile_upsert user_id new ]

-- `updateUser` of admin.service.ts: the administration writes what it is given.
unfoldable pub update_user : ℕ → Option UserState → Option Bool → Exec Db ⊤
update_user id state is_seller = user_update id (λ u. record u {
  state = elim state [ none ↦ u.state | some x ↦ x ];
  is_seller = elim is_seller [ none ↦ u.is_seller | some b ↦ b ];
})
