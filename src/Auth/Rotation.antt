-- ===== src/Auth/Rotation.antt =====
-- How long a refresh token serves, in src/api/src/modules/auth/auth.service.ts.
use iron_loot.Common.{
  ℕ, ◌+◌, ◌*◌, ◌≤◌, ◌<◌, ◌≡◌, refl, inl, inr, true, false, Option, none, some, [], ◌∷◌, arith, ◌==◌,
  Option-cases, All, find_first,
}
use iron_loot.Exec.{ok, err, token_invalid}
use iron_loot.Table.{Table, lookup, insert, find_first-insert, find_first_holds}
use iron_loot.Auth.Rows.{UserState, User, Session, Db}
use iron_loot.Auth.Sessions.{AuthTokens, is_previous, holds_token, is_revoked, refresh_token}

-- The token is the current one of a session that may be refreshed.
pub record IsLive (token : ℕ) (s : Db) : Type 0 where
  pub id : ℕ
  pub session : Session
  pub found : find_first (holds_token token) s.sessions ≡ some (id, session)
  pub current : is_previous token session ≡ false
  pub user : User
  pub known : lookup session.user_id s.users ≡ some user
  pub active : user.state ≡ UserState.active
  pub unrevoked : session.revoked_at ≡ none
  pub unexpired : s.now ≤ session.expires_at

-- No session has a token that is still to be drawn.
abbrev IsBefore : ℕ → Option ℕ → Type 0
IsBefore n none = Unit
IsBefore n (some t) = t < n

abbrev pub IsBelow : ℕ → ℕ × Session → Type 0
IsBelow n (id, x) = (x.refresh_token < n) × IsBefore n x.previous_refresh_token

abbrev pub IsFresh : Db → Type 0
IsFresh s = All (IsBelow s.next_token) s.sessions

abbrev pub later : ℕ → Db → Db
later d s = record s { now = s.now + d }

abbrev rotated : ℕ → ℕ → Session → Session
rotated token at x = record x {
  previous_refresh_token = some x.refresh_token;
  refresh_token = token;
  rotated_at = some at;
  last_used_at = some at;
}

undrawn :
    (n : ℕ) (x : Session) (o : Option ℕ)
    → x.previous_refresh_token ≡ o
    → IsBefore n o
    → is_previous n x ≡ false
undrawn n x none e b = ground arith
undrawn n x (some t) e b = ground arith

unheld : (n : ℕ) (xs : Table Session) → All (IsBelow n) xs → find_first (holds_token n) xs ≡ none
unheld n [] h = refl
unheld n ((id, x) ∷ xs) ((l, b), h) =
    ground (arith, undrawn n x x.previous_refresh_token refl b, unheld n xs h)

-- A session that is revoked gives no tokens.
pub refused_revoked :
    (token : ℕ) (s : Db) (id : ℕ) (x : Session)
    → find_first (holds_token token) s.sessions ≡ some (id, x)
    → is_revoked x ≡ true
    → (refresh_token token s).0 ≡ err token_invalid
unfolding refresh_token
refused_revoked token s id x e r = elim (Option-cases (lookup x.user_id s.users)) [
  | inl n ↦ ground arith
  | inr (u, k) ↦ ground arith
]

module _ (t : ℕ) (s : Db) (v : IsLive t s) where
  abbrev pub rotated_db : Db
  rotated_db = record s {
    sessions = insert v.id (rotated s.next_token s.now v.session) s.sessions;
    next_token = s.next_token + 1;
  }

  -- The token is the session's current one.
  is_current : (t == v.session.refresh_token) ≡ true
  is_current =
      ground
        (arith, find_first_holds (holds_token t) s.sessions (v.id, v.session) v.found, v.current)

  pub refresh_token-rotates :
      refresh_token t s
      ≡ (ok (record { access_user = v.session.user_id; refresh_token = s.next_token }), rotated_db)
  unfolding refresh_token
  refresh_token-rotates =
      ground (arith, v.found, v.current, v.known, v.active, v.unrevoked, v.unexpired)

  old_found :
      find_first (holds_token t) rotated_db.sessions
      ≡ some (v.id, rotated s.next_token s.now v.session)
  old_found =
      find_first-insert (holds_token t) v.id (rotated s.next_token s.now v.session) s.sessions
        (ground (arith, is_current)) (inr (v.session, v.found))

  new_found :
      IsFresh s
      → find_first (holds_token s.next_token) rotated_db.sessions
        ≡ some (v.id, rotated s.next_token s.now v.session)
  new_found h =
      find_first-insert (holds_token s.next_token) v.id (rotated s.next_token s.now v.session)
        s.sessions (ground arith) (inl (unheld s.next_token s.sessions h))

  abbrev new_tokens : AuthTokens
  new_tokens = record { access_user = v.session.user_id; refresh_token = s.next_token }

  abbrev reused : ℕ → Session
  reused at = record (rotated s.next_token s.now v.session) { revoked_at = some at }

  abbrev revoked_db : ℕ → Db
  revoked_db d = record (later d rotated_db) {
    sessions = insert v.id (reused (s.now + d)) rotated_db.sessions;
  }

  module _ (d : ℕ) (u : s.now + d ≤ v.session.expires_at) where
    again_within :
        d ≤ s.settings.rotation_grace_sec * 1000
        → refresh_token t (later d rotated_db) ≡ (ok new_tokens, later d rotated_db)
    unfolding refresh_token
    again_within g = ground (arith, old_found, v.known, v.active, v.unrevoked, is_current)

    again_after :
        s.settings.rotation_grace_sec * 1000 < d
        → refresh_token t (later d rotated_db) ≡ (err token_invalid, revoked_db d)
    unfolding refresh_token
    again_after g = ground (arith, old_found, v.known, v.active, v.unrevoked, is_current)

    -- A live session's refresh token that is presented again within the grace after it was rotated,
    -- before the session expires, is answered with the tokens of the rotation, and nothing is
    -- written.
    pub refresh_token-grace :
        d ≤ s.settings.rotation_grace_sec * 1000
        → ((refresh_token t s).0 ≡ ok new_tokens)
          × (refresh_token t (later d (refresh_token t s).1)
              ≡ (ok new_tokens, later d (refresh_token t s).1))
    refresh_token-grace g = rw refresh_token-rotates (refl, again_within g)

    -- A live session's refresh token that is presented again after the session has rotated it and
    -- the grace is over is refused, and from then on neither it nor the token that replaced it
    -- gives tokens, where no session holds a token still to be drawn and the session would not have
    -- expired.
    pub refresh_token-reuse :
        s.settings.rotation_grace_sec * 1000 < d
        → IsFresh s
        → let after = (refresh_token t (later d (refresh_token t s).1)).1 in
          ((refresh_token t (later d (refresh_token t s).1)).0 ≡ err token_invalid)
          × ((refresh_token t after).0 ≡ err token_invalid)
          × ((refresh_token s.next_token after).0 ≡ err token_invalid)
    refresh_token-reuse g f =
        rw (refresh_token-rotates, again_after g)
          (
            refl,
            refused_revoked t (revoked_db d) v.id (reused (s.now + d))
                (find_first-insert (holds_token t) v.id (reused (s.now + d)) rotated_db.sessions
                  (ground (arith, is_current)) (inr (_, old_found)))
                refl,
            refused_revoked s.next_token (revoked_db d) v.id (reused (s.now + d))
                (find_first-insert (holds_token s.next_token) v.id (reused (s.now + d))
                  rotated_db.sessions (ground arith) (inr (_, new_found f)))
                refl,
          )
