-- ===== src/Auth/Rows.antt =====
-- The rows that src/api/src/modules/auth keeps (models User and Session of src/api/prisma/schema.prisma).
-- Emails and user names are numbers, the same for every spelling of one; secure tokens are drawn from a
-- counter; times are in milliseconds.
use iron_loot.Common.{ℕ, ◌+◌, ◌≡◌, Bool, true, Option, ◌==◌, find_first}
use iron_loot.Exec.{
  ok, ⊤, Exec, pure, raise, gets, modify, user_not_verified, user_suspended, user_banned,
}
use iron_loot.Table.{Table, lookup, insert}

pub data UserState : Type 0 where
  pending_verification active suspended banned : UserState

pub record User : Type 0 where
  pub email : ℕ
  pub username : ℕ
  pub password_hash : ℕ
  pub two_factor_secret : Option ℕ
  pub is_two_factor_enabled : Bool
  pub state : UserState
  pub is_seller : Bool
  pub email_verified_at : Option ℕ
  pub email_verification_token : Option ℕ
  pub email_verification_expires_at : Option ℕ
  pub password_reset_token : Option ℕ
  pub password_reset_expires_at : Option ℕ

pub record Session : Type 0 where
  pub user_id : ℕ
  pub refresh_token : ℕ
  pub previous_refresh_token : Option ℕ
  pub rotated_at : Option ℕ
  pub expires_at : ℕ
  pub last_used_at : Option ℕ
  pub revoked_at : Option ℕ

-- What `process.env` and the configuration hold: the grace of a rotation in seconds, and the life of a
-- refresh token in seconds.
pub record Settings : Type 0 where
  pub rotation_grace_sec : ℕ
  pub refresh_expiry_sec : ℕ

pub record Db : Type 0 where
  pub users : Table User
  pub sessions : Table Session
  pub next_id : ℕ
  pub next_token : ℕ
  pub mail_is_down : Bool
  pub settings : Settings
  pub now : ℕ

-- The libraries: bcrypt's `hash` and `compare`, and otplib's `verify`, of a secret and a code.
pub record Secrets : Type 0 where
  pub hash : ℕ → ℕ
  pub compare : ℕ → ℕ → Bool
  pub verify : ℕ → ℕ → Bool
  pub compare-hash : (password : ℕ) → compare password (hash password) ≡ true

abbrev pub now : Exec Db ℕ
now = gets (λ s. s.now)

abbrev pub fresh_id : Exec Db ℕ
fresh_id s = (ok s.next_id, record s { next_id = s.next_id + 1 })

-- `randomBytes(32)`: a token that was never drawn before.
abbrev pub generate_secure_token : Exec Db ℕ
generate_secure_token s = (ok s.next_token, record s { next_token = s.next_token + 1 })

abbrev pub find_user : ℕ → Exec Db (Option User)
find_user id = gets (λ s. lookup id s.users)

abbrev pub has_email : ℕ → ℕ × User → Bool
has_email email (id, u) = email == u.email

abbrev pub find_by_email : ℕ → Exec Db (Option (ℕ × User))
find_by_email email = gets (λ s. find_first (has_email email) s.users)

abbrev pub user_update : ℕ → User → Exec Db ⊤
user_update id u = modify (λ s. record s { users = insert id u s.users })

abbrev pub session_update : ℕ → Session → Exec Db ⊤
session_update id x = modify (λ s. record s { sessions = insert id x s.sessions })

-- `validateUserState`
abbrev pub validate_user_state : User → Exec Db ⊤
validate_user_state u = elim u.state [
  | UserState.pending_verification ↦ raise user_not_verified
  | UserState.suspended ↦ raise user_suspended
  | UserState.banned ↦ raise user_banned
  | UserState.active ↦ pure tt
]
