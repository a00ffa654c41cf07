-- ===== src/Members/Sellers/Laws.antt =====
-- Who becomes a seller: src/api/src/modules/users/users.service.ts and kyc/kyc.service.ts.
use iron_loot.Common.{
  ℕ, ◌≡◌, refl, ◌⊎◌, inl, inr, Bool, true, false, Option, none, some, arith, Bool-cases,
  Option-cases, find_first,
}
use iron_loot.Exec.{Error, ok, err, validation, user_not_found, conflict}
use iron_loot.Table.{lookup, insert}
use iron_loot.Auth.Rows.{UserState}
use iron_loot.Market.Withdrawals.{is_approved}
use iron_loot.Members.Rows.{User, Profile, Db, user_update}
use iron_loot.Members.Kyc.{enabled_at, is_of, status_of}
use iron_loot.Members.Sellers.{
  given, is_set, is_active, is_none_missing, check_seller_requirements, enable_seller,
}

-- What makes a seller: an active account with a verified email and a name, a profile with an
-- address, and documents whose last review approved them.
pub record Qualifies (k : ℕ) (u : User) (p : Profile) (s : Db) : Type 0 where
  pub found : lookup k s.users ≡ some u
  pub known : lookup k s.profiles ≡ some p
  pub active : u.state ≡ UserState.active
  pub verified : is_set u.email_verified_at ≡ true
  pub named : given u.display_name ≡ true
  pub located : (given p.address ≡ true) × (given p.city ≡ true) × (given p.country ≡ true)
  pub reviewed : is_approved (status_of (find_first (is_of k) s.submissions)) ≡ true

abbrev pub enabled : ℕ → User → Db → Db
enabled k u s = record s { users = insert k (enabled_at s.now u) s.users }

user_update_found :
    (k : ℕ) (data_of : User → User) (s : Db) (u : User)
    → lookup k s.users ≡ some u
    → user_update k data_of s ≡ (ok tt, record s { users = insert k (data_of u) s.users })
user_update_found k data_of s u f = rw (f, user_update) refl

record Meets (u : User) (p : Option Profile) : Type 0 where
  profile : Profile
  known : p ≡ some profile
  active : is_active u.state ≡ true
  verified : is_set u.email_verified_at ≡ true
  named : given u.display_name ≡ true
  located :
      (given profile.address ≡ true) × (given profile.city ≡ true) × (given profile.country ≡ true)

is_true : (b : Bool) → (b ≡ false → ⊥) → b ≡ true
is_true true h = refl
is_true false h = absurd (h refl)

meets :
    (u : User) (p : Option Profile)
    → is_none_missing (check_seller_requirements u p) ≡ true
    → Meets u p
unfolding check_seller_requirements
meets u none h = absurd (ground arith)
meets u (some p) h = record {
  profile = p;
  known = refl;
  active = is_true (is_active u.state) (λ q. ground arith);
  verified = is_true (is_set u.email_verified_at) (λ q. ground arith);
  named = is_true (given u.display_name) (λ q. ground arith);
  located = (
    is_true (given p.address) (λ q. ground arith),
    is_true (given p.city) (λ q. ground arith),
    is_true (given p.country) (λ q. ground arith),
  );
}

module _ (k : ℕ) (s : Db) where
  active_is : (x : UserState) → is_active x ≡ true → x ≡ UserState.active
  active_is UserState.active h = refl
  active_is UserState.pending_verification h = absurd (ground arith)
  active_is UserState.suspended h = absurd (ground arith)
  active_is UserState.banned h = absurd (ground arith)

  qualifies :
      (u : User) (t : Meets u (lookup k s.profiles))
      → lookup k s.users ≡ some u
      → is_approved (status_of (find_first (is_of k) s.submissions)) ≡ true
      → Qualifies k u t.profile s
  qualifies u t f w = record {
    found = f;
    known = t.known;
    active = active_is u.state t.active;
    verified = t.verified;
    named = t.named;
    located = t.located;
    reviewed = w;
  }

  module _ (u : User) (p : Profile) where
    -- A user that qualifies and is no seller yet becomes one by accepting the terms.
    pub enable_seller-Qualifies :
        Qualifies k u p s → u.is_seller ≡ false → enable_seller true k s ≡ (ok s.now, enabled k u s)
    unfolding enable_seller check_seller_requirements
    enable_seller-Qualifies q n =
        let f = q.found in
        let g = q.known in
        let a = q.active in
        let v = q.verified in
        let d = q.named in
        let (x, y, z) = q.located in
        let w = q.reviewed in
        let i = user_update_found k (enabled_at s.now) s u f in ground (arith, i)

  -- Becoming a seller either throws and writes nothing, or the terms are accepted, the user is no
  -- seller yet, is active with a verified email and a name, has a profile with address, city and
  -- country and documents whose newest submission is approved, and the user's being a seller from
  -- now on is all that is written.
  pub enable_seller_cases :
      (accept : Bool)
      → ((e : Error) × (enable_seller accept k s ≡ (err e, s)))
        ⊎ ((u : User) × (p : Profile) × (accept ≡ true)
            × (u.is_seller ≡ false)
            × Qualifies k u p s
            × (enable_seller accept k s ≡ (ok s.now, enabled k u s)))
  unfolding enable_seller
  enable_seller_cases false = inl (validation, refl)
  enable_seller_cases true = elim (Option-cases (lookup k s.users)) [
    | inl f ↦ inl (user_not_found, ground arith)
    | inr (u, f) ↦ elim (Bool-cases u.is_seller) [
      | inl b ↦ inl (conflict, ground arith)
      | inr b ↦
          elim (Bool-cases (is_none_missing (check_seller_requirements u (lookup k s.profiles)))) [
            | inr m ↦ inl (validation, ground arith)
            | inl m ↦
                elim (Bool-cases (is_approved (status_of (find_first (is_of k) s.submissions)))) [
                  | inr w ↦ inl (validation, ground arith)
                  | inl w ↦
                      let t = meets u (lookup k s.profiles) m in
                      let q = qualifies u t f w in
                      inr (u, t.profile, refl, b, q, enable_seller-Qualifies u t.profile q b)
                ]
          ]
    ]
  ]
