-- ===== src/Auth/Passwords.antt =====
-- New passwords and the sessions, in src/api/src/modules/auth/auth.service.ts.
use iron_loot.Common.{
  ℕ, ◌≡◌, refl, ap, ◌∙◌, inr, true, false, none, some, [], ◌∷◌, arith, All, find_first,
}
use iron_loot.Exec.{Result, ok}
use iron_loot.Table.{Table, lookup, insert, lookup-insert_self, find_first-insert}
use iron_loot.Auth.Rows.{UserState, User, Session, Secrets, Db, has_email}
use iron_loot.Auth.Sessions.{
  AuthTokens, login, generate_tokens, is_live_of, revoke_where, refresh_token,
}
use iron_loot.Auth.Login.{session_opened}
use iron_loot.Auth.Accounts.{resets, reset_password, change_password}
use iron_loot.Auth.Rotation.{IsLive, refresh_token-rotates}

-- No session of the user gives tokens.
abbrev pub IsLockedOut : ℕ → ℕ × Session → Type 0
IsLockedOut user_id (id, x) = is_live_of user_id x ≡ false

revoke_where-IsLockedOut :
    (user_id at : ℕ) (xs : Table Session)
    → All (IsLockedOut user_id) (revoke_where (is_live_of user_id) at xs)
revoke_where-IsLockedOut user_id at [] = tt
revoke_where-IsLockedOut user_id at ((id, x) ∷ xs) =
    (ground arith, revoke_where-IsLockedOut user_id at xs)

module _ (secrets : Secrets) (token password : ℕ) (s : Db) (id : ℕ) (u : User)
    (f : find_first (resets token s.now) s.users ≡ some (id, u)) where
  abbrev changed : User
  changed = record u {
    password_hash = secrets.hash password;
    password_reset_token = none;
    password_reset_expires_at = none;
  }

  abbrev pub after_reset : Db
  after_reset = record s {
    users = insert id changed s.users;
    sessions = revoke_where (is_live_of id) s.now s.sessions;
  }

  reset_password_found : reset_password secrets token password s ≡ (ok tt, after_reset)
  unfolding reset_password
  reset_password_found = ground (arith, f)

  email_found :
      find_first (has_email u.email) s.users ≡ some (id, u)
      → find_first (has_email u.email) after_reset.users ≡ some (id, changed)
  email_found e =
      find_first-insert (has_email u.email) id changed s.users (ground arith) (inr (u, e))

  -- Resetting a password with a token that is valid, of an active user without a second factor
  -- whose email is found, leaves no session of the user that gives tokens, and the login with the
  -- new password then returns.
  pub reset_password-login :
      find_first (has_email u.email) s.users ≡ some (id, u)
      → u.is_two_factor_enabled ≡ false
      → u.state ≡ UserState.active
      → let after = (reset_password secrets token password s).1 in
        ((reset_password secrets token password s).0 ≡ ok tt)
        × All (IsLockedOut id) after.sessions
        × (login secrets u.email password none after ≡ (
          ok (record { access_user = id; refresh_token = s.next_token }),
          session_opened id after,
        ))
  unfolding login generate_tokens
  reset_password-login e t a = rw reset_password_found (
    refl,
    revoke_where-IsLockedOut id s.now s.sessions,
    ground (arith, email_found e, secrets.compare-hash password),
  )

module _ (secrets : Secrets) (user_id old new : ℕ) (s : Db) (u : User)
    (k : lookup user_id s.users ≡ some u) (c : secrets.compare old u.password_hash ≡ true) where
  change_password_found : change_password secrets user_id old new s ≡ (
    ok tt,
    record s { users = insert user_id (record u { password_hash = secrets.hash new }) s.users },
  )
  unfolding change_password
  change_password_found = ground (arith, k, c)

  still_live :
      (t : ℕ) (v : IsLive t s)
      → v.session.user_id ≡ user_id
      → (w : IsLive t (record s {
        users = insert user_id (record u { password_hash = secrets.hash new }) s.users;
      }))
        × (w.session.user_id ≡ user_id)
  still_live t v e =
      let u' : User = record u { password_hash = secrets.hash new } in
      (
        record {
          id = v.id;
          session = v.session;
          found = v.found;
          current = v.current;
          user = u';
          known = rw e (lookup-insert_self user_id u' s.users);
          active = ground (arith, k, v.known, e, v.active);
          unrevoked = v.unrevoked;
          unexpired = v.unexpired;
        },
        e,
      )

  -- Changing the password with the right old one returns and leaves the user's sessions as they
  -- are: the refresh token of a live one still gives tokens.
  pub change_password-refresh_token :
      (t : ℕ) (v : IsLive t s)
      → v.session.user_id ≡ user_id
      → let after = (change_password secrets user_id old new s).1 in
        ((change_password secrets user_id old new s).0 ≡ ok tt)
        × ((refresh_token t after).0
            ≡ ok (record { access_user = user_id; refresh_token = s.next_token }))
  change_password-refresh_token t v e =
      let (w, i) = still_live t v e in
      rw change_password_found (
        refl,
        ap (λ m. m.0) (refresh_token-rotates t _ w)
            ∙ ap {A = ℕ} {B = Result AuthTokens}
                (λ j. ok (record { access_user = j; refresh_token = s.next_token })) i,
      )
