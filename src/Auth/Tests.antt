-- ===== src/Auth/Tests.antt =====
-- Runs of src/api/src/modules/auth on a concrete user.
use iron_loot.Common.{ℕ, ◌≡◌, refl, ◌⊎◌, true, false, none, some, [], ◌∷◌, arith, ◌==◌, All}
use iron_loot.Exec.{Error, ok, err, token_invalid}
use iron_loot.Auth.Rows.{UserState, User, Session, Secrets, Db}
use iron_loot.Auth.Sessions.{login, refresh_token}
use iron_loot.Auth.Accounts.{reset_password}
use iron_loot.Auth.Login.{LoggedIn, login_cases, session_opened}
use iron_loot.Auth.Rotation.{IsLive, later, refresh_token-grace, refresh_token-reuse}
use iron_loot.Auth.Passwords.{IsLockedOut, reset_password-login}

same_number : (n : ℕ) → (n == n) ≡ true
same_number n = ground arith

abbrev secrets : Secrets
secrets = record {
  hash = λ p. p;
  compare = λ p h. p == h;
  verify = λ secret code. secret == code;
  compare-hash = same_number;
}

abbrev user : User
user = record {
  email = 5;
  username = 6;
  password_hash = 1234;
  two_factor_secret = none;
  is_two_factor_enabled = false;
  state = UserState.active;
  is_seller = false;
  email_verified_at = some 10;
  email_verification_token = none;
  email_verification_expires_at = none;
  password_reset_token = some 41;
  password_reset_expires_at = some 9000;
}

abbrev session : Session
session = record {
  user_id = 1;
  refresh_token = 40;
  previous_refresh_token = none;
  rotated_at = none;
  expires_at = 600000;
  last_used_at = none;
  revoked_at = none;
}

abbrev db : Db
db = record {
  users = (1, user) ∷ [];
  sessions = (3, session) ∷ [];
  next_id = 4;
  next_token = 42;
  mail_is_down = false;
  settings = record { rotation_grace_sec = 30; refresh_expiry_sec = 604800 };
  now = 1000;
}

login_cases_example :
    LoggedIn secrets 5 1234 none db ⊎ ((e : Error) × (login secrets 5 1234 none db ≡ (err e, db)))
login_cases_example = login_cases secrets 5 1234 none db

abbrev live : IsLive 40 db
live = record {
  id = 3;
  session = session;
  found = refl;
  current = refl;
  user = user;
  known = refl;
  active = refl;
  unrevoked = refl;
  unexpired = omega arith;
}

refresh_token-grace_example :
    ((refresh_token 40 db).0
      ≡ ok (record { access_user = live.session.user_id; refresh_token = 42 }))
    × (refresh_token 40 (later 20000 (refresh_token 40 db).1) ≡ (
      ok (record { access_user = live.session.user_id; refresh_token = 42 }),
      later 20000 (refresh_token 40 db).1,
    ))
refresh_token-grace_example = refresh_token-grace 40 db live 20000 (omega arith) (omega arith)

refresh_token-reuse_example :
    let after = (refresh_token 40 (later 31000 (refresh_token 40 db).1)).1 in
    ((refresh_token 40 (later 31000 (refresh_token 40 db).1)).0 ≡ err token_invalid)
    × ((refresh_token 40 after).0 ≡ err token_invalid)
    × ((refresh_token 42 after).0 ≡ err token_invalid)
refresh_token-reuse_example =
    refresh_token-reuse 40 db live 31000 (omega arith) (omega arith) ((omega arith, tt), tt)

reset_password-login_example :
    let after = (reset_password secrets 41 777 db).1 in
    ((reset_password secrets 41 777 db).0 ≡ ok tt)
    × All (IsLockedOut 1) after.sessions
    × (login secrets 5 777 none after
        ≡ (ok (record { access_user = 1; refresh_token = 42 }), session_opened 1 after))
reset_password-login_example = reset_password-login secrets 41 777 db 1 user refl refl refl refl
