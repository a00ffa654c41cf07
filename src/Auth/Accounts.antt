-- ===== src/Auth/Accounts.antt =====
-- Accounts in src/api/src/modules/auth/auth.service.ts and two-factor-auth.service.ts: registration, the
-- verification of an email, passwords, and the second factor.
use iron_loot.Common.{
  ℕ, ◌+◌, ◌*◌, Bool, true, false, ◌&&◌, not, Option, none, some, ltb, ◌==◌, if◌then◌else◌,
  find_first,
}
use iron_loot.Exec.{
  ok, err, ⊤, Exec, pure, gets, or_raise, transaction, raise_if, ◌>>=◌, ◌>>◌, attempt, bad_request,
  validation, user_not_found, record_missing, connection_failed, invalid_credentials,
  email_already_exists, token_invalid, conflict,
}
use iron_loot.Auth.Rows.{
  UserState, User, Secrets, Db, now, fresh_id, generate_secure_token, find_user, find_by_email,
  user_update,
}
use iron_loot.Auth.Sessions.{AuthTokens, generate_tokens, is_live_of, revoke}

abbrev has_username : ℕ → ℕ × User → Bool
has_username username (id, u) = username == u.username

abbrev send_email : Exec Db ⊤
send_email s = (if s.mail_is_down then err connection_failed else ok tt, s)

abbrev day_ms : ℕ
day_ms = 24 * 60 * 60 * 1000

abbrev hour_ms : ℕ
hour_ms = 60 * 60 * 1000

abbrev pub is_some : {A : Type 0} → Option A → Bool
is_some none = false
is_some (some a) = true

-- The email of the verification may fail: the account is made all the same.
unfoldable pub register : Secrets → ℕ → ℕ → ℕ → Exec Db AuthTokens
register secrets email username password = do
  taken ← find_by_email email
  raise_if (is_some taken) email_already_exists
  named ← gets (λ s. find_first (has_username username) s.users)
  raise_if (is_some named) validation
  token ← generate_secure_token
  at ← now
  id ← fresh_id
  user_update id (record {
    email = email;
    username = username;
    password_hash = secrets.hash password;
    two_factor_secret = none;
    is_two_factor_enabled = false;
    state = UserState.pending_verification;
    is_seller = false;
    email_verified_at = none;
    email_verification_token = some token;
    email_verification_expires_at = some (at + day_ms);
    password_reset_token = none;
    password_reset_expires_at = none;
  })
  tokens ← generate_tokens id
  attempt send_email
  pure tokens

abbrev is_pending : UserState → Bool
is_pending UserState.pending_verification = true
is_pending _ = false

abbrev renew_verification : ℕ → User → Exec Db ⊤
renew_verification id u = do
  token ← generate_secure_token
  at ← now
  user_update id (record u {
    email_verification_token = some token;
    email_verification_expires_at = some (at + day_ms);
  })
  send_email

-- The answer is the same whether there is such an account or not.
unfoldable pub resend_verification : ℕ → Exec Db ⊤
resend_verification email = do
  found ← find_by_email email
  elim found [
    | none ↦ pure tt
    | some (id, u) ↦ if is_pending u.state then renew_verification id u else pure tt
  ]

-- Of users.service.ts: a signed-in user asks, and is told if the email could not be sent.
unfoldable pub resend_verification_email : ℕ → Exec Db ⊤
resend_verification_email user_id = do
  u ← or_raise (← find_user user_id) user_not_found
  raise_if (is_some u.email_verified_at) conflict
  renew_verification user_id u

-- Whether a user's token is this one, and does not expire by now.
abbrev pub is_token : ℕ → ℕ → Option ℕ → Option ℕ → Bool
is_token token at none expires = false
is_token token at (some t) none = false
is_token token at (some t) (some e) = (token == t) && ltb at e

abbrev pub verifies : ℕ → ℕ → ℕ × User → Bool
verifies token at (id, u) =
    is_token token at u.email_verification_token u.email_verification_expires_at

abbrev pub resets : ℕ → ℕ → ℕ × User → Bool
resets token at (id, u) = is_token token at u.password_reset_token u.password_reset_expires_at

unfoldable pub verify_email : ℕ → Exec Db ⊤
verify_email token = do
  at ← now
  (id, u) ← or_raise (← gets (λ s. find_first (verifies token at) s.users)) token_invalid
  user_update id (record u {
    state = UserState.active;
    email_verified_at = some at;
    email_verification_token = none;
    email_verification_expires_at = none;
  })

abbrev set_reset_token : ℕ → User → Exec Db ⊤
set_reset_token id u = do
  token ← generate_secure_token
  at ← now
  user_update id (record u {
    password_reset_token = some token;
    password_reset_expires_at = some (at + hour_ms);
  })
  attempt send_email

unfoldable pub forgot_password : ℕ → Exec Db ⊤
forgot_password email = do
  found ← find_by_email email
  elim found [ none ↦ pure tt | some (id, u) ↦ set_reset_token id u ]

unfoldable pub reset_password : Secrets → ℕ → ℕ → Exec Db ⊤
reset_password secrets token new_password = do
  at ← now
  (id, u) ← or_raise (← gets (λ s. find_first (resets token at) s.users)) token_invalid
  transaction do
    user_update id (record u {
      password_hash = secrets.hash new_password;
      password_reset_token = none;
      password_reset_expires_at = none;
    })
    revoke (is_live_of id)

unfoldable pub change_password : Secrets → ℕ → ℕ → ℕ → Exec Db ⊤
change_password secrets user_id current_password new_password = do
  u ← or_raise (← find_user user_id) user_not_found
  raise_if (not (secrets.compare current_password u.password_hash)) invalid_credentials
  user_update user_id (record u { password_hash = secrets.hash new_password })

-- `validateUser`, of an access token: whom it still stands for.
unfoldable pub validate_user : ℕ → Exec Db (Option ℕ)
validate_user sub = do
  found ← find_user sub
  pure (elim found [
    | none ↦ none
    | some u ↦ elim u.state [ UserState.banned ↦ none | _ ↦ some sub ]
  ])

-- The secret is written at once; the second factor is asked for once it is verified.
unfoldable pub generate_secret : ℕ → ℕ → Exec Db ⊤
generate_secret user_id secret = do
  u ← or_raise (← find_user user_id) record_missing
  user_update user_id (record u { two_factor_secret = some secret })

unfoldable pub verify_and_enable : Secrets → ℕ → ℕ → Exec Db Bool
verify_and_enable secrets user_id code = do
  u ← or_raise (← find_user user_id) bad_request
  secret ← or_raise u.two_factor_secret bad_request
  if secrets.verify secret code
      then (user_update user_id (record u { is_two_factor_enabled = true }) >> pure true)
      else pure false

unfoldable pub disable : Secrets → ℕ → ℕ → Exec Db Bool
disable secrets user_id code = do
  u ← or_raise (← find_user user_id) bad_request
  raise_if (not u.is_two_factor_enabled) bad_request
  secret ← or_raise u.two_factor_secret bad_request
  if secrets.verify secret code
      then (user_update user_id
            (record u { is_two_factor_enabled = false; two_factor_secret = none })
          >> pure true)
      else pure false
