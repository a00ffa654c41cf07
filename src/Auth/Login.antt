-- ===== src/Auth/Login.antt =====
-- Who gets in, and how long a refresh token serves, in src/api/src/modules/auth/auth.service.ts.
use iron_loot.Common.{
  ℕ, ◌+◌, ◌*◌, ◌≡◌, refl, ◌⊎◌, inl, inr, true, false, Option, none, some, arith, Bool-cases,
  Option-cases, find_first,
}
use iron_loot.Exec.{
  Error, ok, err, validation, invalid_credentials, user_not_verified, user_suspended, user_banned,
}
use iron_loot.Table.{insert}
use iron_loot.Auth.Rows.{UserState, User, Secrets, Db, has_email}
use iron_loot.Auth.Sessions.{generate_tokens, validate_token, login}

-- The database with a session opened for `id`.
abbrev pub session_opened : ℕ → Db → Db
session_opened id s = record s {
  sessions =
      insert s.next_id
        (record {
          user_id = id;
          refresh_token = s.next_token;
          previous_refresh_token = none;
          rotated_at = none;
          expires_at = s.now + s.settings.refresh_expiry_sec * 1000;
          last_used_at = none;
          revoked_at = none;
        })
        s.sessions;
  next_id = s.next_id + 1;
  next_token = s.next_token + 1;
}

-- The user of the email, active, with the right password and, where it is enabled, a valid code.
pub record LoggedIn (secrets : Secrets) (email password : ℕ) (code : Option ℕ) (s : Db)
    : Type 0 where
  pub id : ℕ
  pub user : User
  pub found : find_first (has_email email) s.users ≡ some (id, user)
  pub right : secrets.compare password user.password_hash ≡ true
  pub second :
      (user.is_two_factor_enabled ≡ false)
      ⊎ ((c : ℕ) × (code ≡ some c) × (validate_token secrets user c ≡ true))
  pub active : user.state ≡ UserState.active
  pub returns :
      login secrets email password code s
      ≡ (ok (record { access_user = id; refresh_token = s.next_token }), session_opened id s)

abbrev Denied : Secrets → ℕ → ℕ → Option ℕ → Db → Type 0
Denied secrets email password code s =
    (e : Error) × (login secrets email password code s ≡ (err e, s))

module _ (secrets : Secrets) (email password : ℕ) (code : Option ℕ) (s : Db) (id : ℕ) (u : User)
    (f : find_first (has_email email) s.users ≡ some (id, u))
    (c : secrets.compare password u.password_hash ≡ true) where
  state_cases :
      (st : UserState)
      → u.state ≡ st
      → ((u.is_two_factor_enabled ≡ false)
          ⊎ ((k : ℕ) × (code ≡ some k) × (validate_token secrets u k ≡ true)))
      → LoggedIn secrets email password code s ⊎ Denied secrets email password code s
  unfolding login generate_tokens
  state_cases UserState.active e t = inl (record {
    id = id;
    user = u;
    found = f;
    right = c;
    second = t;
    active = e;
    returns = ground arith;
  })
  state_cases UserState.pending_verification e t = inr (user_not_verified, ground arith)
  state_cases UserState.suspended e t = inr (user_suspended, ground arith)
  state_cases UserState.banned e t = inr (user_banned, ground arith)

  second_cases :
      (k : Option ℕ)
      → code ≡ k
      → LoggedIn secrets email password code s ⊎ Denied secrets email password code s
  unfolding login
  second_cases none e = elim (Bool-cases u.is_two_factor_enabled) [
    | inr q ↦ state_cases u.state refl (inl q)
    | inl q ↦ inr (validation, ground arith)
  ]
  second_cases (some k) e = elim (Bool-cases u.is_two_factor_enabled) [
    | inr q ↦ state_cases u.state refl (inl q)
    | inl q ↦ elim (Bool-cases (validate_token secrets u k)) [
      | inl v ↦ state_cases u.state refl (inr (k, e, v))
      | inr v ↦ inr (invalid_credentials, ground arith)
    ]
  ]

-- A login returns only for the user of the email, active, with the right password and, where the
-- second factor is enabled, a valid code, and then opens one session for that user with a new
-- token; in every other case it throws and writes nothing.
pub login_cases :
    (secrets : Secrets) (email password : ℕ) (code : Option ℕ) (s : Db)
    → LoggedIn secrets email password code s
      ⊎ ((e : Error) × (login secrets email password code s ≡ (err e, s)))
unfolding login
login_cases secrets email password code s =
    elim (Option-cases (find_first (has_email email) s.users)) [
      | inl e ↦ inr (invalid_credentials, ground arith)
      | inr ((id, u), f) ↦ elim (Bool-cases (secrets.compare password u.password_hash)) [
        | inr c ↦ inr (invalid_credentials, ground arith)
        | inl c ↦ second_cases secrets email password code s id u f c code refl
      ]
    ]
