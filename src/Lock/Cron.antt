-- ===== src/Lock/Cron.antt =====
-- The scheduler's round of every minute (handleCron of auction-scheduler.service.ts): the auctions are
-- closed by the instance that has the lock.
use iron_loot.Common.{
  ℕ, ◌<◌, ◌≡◌, refl, sym, ap, ◌∙◌, ◌⊎◌, inl, inr, true, false, Option, none, some, List, [], ◌∷◌,
  arith, Bool-cases, Option-cases,
}
use iron_loot.Exec.{Result, ok, err, ⊤, Exec, pure, ◌>>=◌, ◌>>◌, outcome_cases, connection_failed}
use iron_loot.Market.Rows.{Auction, Bid, Db}
use iron_loot.Market.Scheduler.{
  start_scheduled_auctions, close_expired_auctions, close_rows, close_auction, expired,
}
use iron_loot.Lock.{Redis, acquire_lock, release_lock}
use iron_loot.Lock.Exclusion.{acquired}

-- The database and the server.
abbrev pub on_db : {W A : Type 0} → Exec Db A → Exec (Db × W) A
on_db m s = let (r, db) = m s.0 in (r, (db, s.1))

abbrev pub on_redis : {W A : Type 0} → Exec W A → Exec (Db × W) A
on_redis m s = let (r, w) = m s.1 in (r, (s.0, w))

-- `try { m } finally { f }`
module _ {S A B : Type 0} where
  abbrev keep : Result A → Result B × S → Result A × S
  keep r (ok _, s) = (r, s)
  keep r (err e, s) = (err e, s)

  abbrev pub finally : Exec S A → Exec S B → Exec S A
  finally m f s = let (r, s₁) = m s in keep r (f s₁)

-- The name of the lock `lock:auction-close`, and its time to live in seconds.
abbrev pub close_key : ℕ
close_key = 0

abbrev pub lock_ttl : ℕ
lock_ttl = 60

module _ {W : Type 0} (redis : Redis W) (to_fixed : ℕ → ℕ) where
  -- `value` is the `uuid()` of the call.
  unfoldable pub close_locked : Option ℕ → Exec (Db × W) ⊤
  close_locked none = pure tt
  close_locked (some value) =
      finally (on_db (close_expired_auctions to_fixed))
        (on_redis (release_lock redis close_key value))

  unfoldable pub handle_cron : ℕ → Exec (Db × W) ⊤
  handle_cron value = do
    on_db start_scheduled_auctions
    close_locked (← on_redis (acquire_lock redis close_key lock_ttl value))

close_rows-ok :
    (to_fixed : ℕ → ℕ) (rows : List (ℕ × Auction × Option Bid)) (s : Db)
    → (close_rows to_fixed rows s).0 ≡ ok tt
close_rows-ok to_fixed [] s = refl
close_rows-ok to_fixed ((k, a, b) ∷ rows) s =
    close_rows-ok to_fixed rows (close_auction to_fixed k a b s).1

close_expired_auctions-ok :
    (to_fixed : ℕ → ℕ) (s : Db) → (close_expired_auctions to_fixed s).0 ≡ ok tt
unfolding close_expired_auctions
close_expired_auctions-ok to_fixed s = close_rows-ok to_fixed (expired to_fixed s s.auctions) s

module _ {W : Type 0} (redis : Redis W) where
  acquire_down :
      (k ttl v : ℕ) (w : W)
      → redis.is_down w ≡ true
      → acquire_lock redis k ttl v w ≡ (err connection_failed, w)
  unfolding acquire_lock
  acquire_down k ttl v w d = ground arith

  acquire_held :
      (k ttl v : ℕ) (e : ℕ × ℕ) (w : W)
      → redis.is_down w ≡ false
      → redis.entry k w ≡ some e
      → acquire_lock redis k ttl v w ≡ (ok none, w)
  unfolding acquire_lock
  acquire_held k ttl v e w d h = ground (arith, redis.set_taken k v ttl w e h)

  acquire_free :
      (k ttl v : ℕ) (w : W)
      → 0 < ttl
      → redis.is_down w ≡ false
      → redis.entry k w ≡ none
      → acquire_lock redis k ttl v w ≡ (ok (some v), (acquire_lock redis k ttl v w).1)
  unfolding acquire_lock
  acquire_free k ttl v w p d h = ground (arith, redis.set_free k v ttl w p h)

  release_down :
      (k v : ℕ) (w : W)
      → redis.is_down w ≡ true
      → release_lock redis k v w ≡ (err connection_failed, w)
  unfolding release_lock
  release_down k v w d = ground arith

  release_own :
      (k v left : ℕ) (w : W)
      → redis.is_down w ≡ false
      → redis.entry k w ≡ some (v, left)
      → release_lock redis k v w ≡ (ok true, redis.del k w)
  unfolding release_lock
  release_own k v left w d h = ground arith

abbrev pub started_db : Db → Db
started_db db = (start_scheduled_auctions db).1

module _ {W : Type 0} (redis : Redis W) (to_fixed : ℕ → ℕ) (value : ℕ) (db : Db) (w : W) where
  abbrev locked : W
  locked = (acquire_lock redis close_key lock_ttl value w).1

  -- The round with the lock free: the expired auctions are closed, and the lock is released, unless the
  -- connection is lost in between.
  pub record Closes : Type 0 where
    pub was_free : redis.entry close_key w ≡ none
    pub closes :
        (handle_cron redis to_fixed value (db, w)).1.0
        ≡ (close_expired_auctions to_fixed (started_db db)).1
    pub ends :
        (((handle_cron redis to_fixed value (db, w)).0 ≡ ok tt)
          × (redis.entry close_key (handle_cron redis to_fixed value (db, w)).1.1 ≡ none))
        ⊎ ((redis.is_down locked ≡ true)
            × ((handle_cron redis to_fixed value (db, w)).0 ≡ err connection_failed))

  closes_free : redis.is_down w ≡ false → redis.entry close_key w ≡ none → Closes
  unfolding handle_cron close_locked start_scheduled_auctions
  closes_free d h = elim (outcome_cases (acquire_lock redis close_key lock_ttl value w)) [
    | inr (e, w₁, q) ↦
        absurd (cc (sym (acquire_free redis close_key lock_ttl value w (omega arith) d h) ∙ q))
    | inl (r, w₁, q) ↦
        let a = acquire_free redis close_key lock_ttl value w (omega arith) d h in
        let r_is : r ≡ some value = cc (q, a) in
        let c = close_expired_auctions-ok to_fixed (started_db db) in
        let mine : redis.entry close_key w₁ ≡ some (value, lock_ttl) =
          ap (λ x. redis.entry close_key x.1) (sym q)
          ∙ acquired redis close_key value lock_ttl w (omega arith) (ap (λ x. x.0) a) in
        elim (Bool-cases (redis.is_down w₁)) [
          | inl z ↦
              let rel = release_down redis close_key value w₁ z in
              record {
                was_free = h;
                closes = rw (q, r_is, rel) refl;
                ends = inr (ap (λ x. redis.is_down x.1) q ∙ z, rw (q, r_is, rel) refl);
              }
          | inr z ↦
              let rel = release_own redis close_key value lock_ttl w₁ z mine in
              record {
                was_free = h;
                closes = rw (q, r_is, rel) refl;
                ends = inl (rw (q, r_is, rel) c, rw (q, r_is, rel) (redis.entry-del close_key w₁));
              }
        ]
  ]

  -- A round of the scheduler starts the auctions whose start has come in any case. With the server
  -- down it throws; with the lock held it ends there; else the expired auctions are closed, and
  -- then the lock is free again, unless the connection was lost in between, and then the round
  -- throws.
  pub handle_cron_cases :
      ((redis.is_down w ≡ true)
        × (handle_cron redis to_fixed value (db, w) ≡ (err connection_failed, (started_db db, w))))
      ⊎ ((e : ℕ × ℕ) × (redis.entry close_key w ≡ some e)
          × (handle_cron redis to_fixed value (db, w) ≡ (ok tt, (started_db db, w))))
      ⊎ Closes
  unfolding handle_cron close_locked start_scheduled_auctions
  handle_cron_cases = elim (Bool-cases (redis.is_down w)) [
    | inl d ↦ inl (d, rw (acquire_down redis close_key lock_ttl value w d) refl)
    | inr d ↦ elim (Option-cases (redis.entry close_key w)) [
      | inr (e, h) ↦ inr (inl (e, h, rw (acquire_held redis close_key lock_ttl value e w d h) refl))
      | inl h ↦ inr (inr (closes_free d h))
    ]
  ]
