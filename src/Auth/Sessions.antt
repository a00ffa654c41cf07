-- ===== src/Auth/Sessions.antt =====
-- Sessions in src/api/src/modules/auth/auth.service.ts: login, refreshToken, logout.
use iron_loot.Common.{
  ℕ, ◌+◌, ◌*◌, Bool, true, false, ◌&&◌, ◌||◌, not, Option, none, some, [], ◌∷◌, ltb, leb, ◌==◌,
  if◌then◌else◌, find_first,
}
use iron_loot.Exec.{
  ⊤, Exec, pure, raise, gets, or_raise, raise_if, modify, ◌>>=◌, ◌>>◌, validation,
  invalid_credentials, token_expired, token_invalid,
}
use iron_loot.Table.{Table}
use iron_loot.Auth.Rows.{
  User, Session, Secrets, Db, now, fresh_id, generate_secure_token, find_user, find_by_email,
  session_update, validate_user_state,
}

-- The tokens of a response; the access token says who it is for.
pub record AuthTokens : Type 0 where
  pub access_user : ℕ
  pub refresh_token : ℕ

unfoldable pub generate_tokens : ℕ → Exec Db AuthTokens
generate_tokens user_id = do
  token ← generate_secure_token
  at ← now
  life ← gets (λ s. s.settings.refresh_expiry_sec)
  id ← fresh_id
  session_update id (record {
    user_id = user_id;
    refresh_token = token;
    previous_refresh_token = none;
    rotated_at = none;
    expires_at = at + life * 1000;
    last_used_at = none;
    revoked_at = none;
  })
  pure (record { access_user = user_id; refresh_token = token })

-- `emitirAcceso`
abbrev pub emitir_acceso : ℕ → ℕ → Exec Db AuthTokens
emitir_acceso user_id token = pure (record { access_user = user_id; refresh_token = token })

abbrev verify_secret : Secrets → Option ℕ → ℕ → Bool
verify_secret secrets none code = false
verify_secret secrets (some secret) code = secrets.verify secret code

-- `TwoFactorAuthService.validateToken`
unfoldable pub validate_token : Secrets → User → ℕ → Bool
validate_token secrets u code =
    u.is_two_factor_enabled && verify_secret secrets u.two_factor_secret code

abbrev check_two_factor : Secrets → User → Option ℕ → Exec Db ⊤
check_two_factor secrets u none = raise_if u.is_two_factor_enabled validation
check_two_factor secrets u (some code) =
    raise_if (u.is_two_factor_enabled && not (validate_token secrets u code)) invalid_credentials

unfoldable pub login : Secrets → ℕ → ℕ → Option ℕ → Exec Db AuthTokens
login secrets email password two_factor_code = do
  (id, u) ← or_raise (← find_by_email email) invalid_credentials
  raise_if (not (secrets.compare password u.password_hash)) invalid_credentials
  check_two_factor secrets u two_factor_code
  validate_user_state u
  generate_tokens id

abbrev pub is_previous : ℕ → Session → Bool
is_previous token x = elim x.previous_refresh_token [ none ↦ false | some t ↦ token == t ]

abbrev pub holds_token : ℕ → ℕ × Session → Bool
holds_token token (id, x) = (token == x.refresh_token) || is_previous token x

abbrev pub find_session : ℕ → Exec Db (Option (ℕ × Session))
find_session token = gets (λ s. find_first (holds_token token) s.sessions)

abbrev pub is_revoked : Session → Bool
is_revoked x = elim x.revoked_at [ none ↦ false | some at ↦ true ]

-- The clock of the grace starts at the rotation.
abbrev pub within_grace : ℕ → ℕ → Session → Bool
within_grace at grace_sec x = elim x.rotated_at [
  | none ↦ false
  | some t ↦ leb at (t + grace_sec * 1000)
]

-- The session of which two copies of a token are about is revoked.
abbrev revoke_reused : ℕ → Session → Exec Db AuthTokens
revoke_reused id x = do
  at ← now
  session_update id (record x { revoked_at = some at })
  raise token_invalid

abbrev answer_previous : ℕ → Session → Exec Db AuthTokens
answer_previous id x = do
  at ← now
  grace ← gets (λ s. s.settings.rotation_grace_sec)
  if within_grace at grace x then emitir_acceso x.user_id x.refresh_token else revoke_reused id x

abbrev rotate : ℕ → Session → Exec Db AuthTokens
rotate id x = do
  token ← generate_secure_token
  at ← now
  session_update id (record x {
    previous_refresh_token = some x.refresh_token;
    refresh_token = token;
    rotated_at = some at;
    last_used_at = some at;
  })
  emitir_acceso x.user_id token

unfoldable pub refresh_token : ℕ → Exec Db AuthTokens
refresh_token token = do
  (id, x) ← or_raise (← find_session token) token_invalid
  u ← or_raise (← find_user x.user_id) token_invalid
  raise_if (is_revoked x) token_invalid
  at ← now
  raise_if (ltb x.expires_at at) token_expired
  validate_user_state u
  if is_previous token x then answer_previous id x else rotate id x

-- `updateMany`: the sessions that the `where` clause selects are revoked.
abbrev pub revoke_where : (Session → Bool) → ℕ → Table Session → Table Session
revoke_where p at [] = []
revoke_where p at ((id, x) ∷ xs) =
    (id, if p x then record x { revoked_at = some at } else x) ∷ revoke_where p at xs

abbrev pub revoke : (Session → Bool) → Exec Db ⊤
revoke p = modify (λ s. record s { sessions = revoke_where p s.now s.sessions })

abbrev pub is_live_of : ℕ → Session → Bool
is_live_of user_id x = (x.user_id == user_id) && not (is_revoked x)

unfoldable pub logout : ℕ → Option ℕ → Exec Db ⊤
logout user_id none = revoke (is_live_of user_id)
logout user_id (some token) = revoke (λ x. (x.user_id == user_id) && (x.refresh_token == token))
