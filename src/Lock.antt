-- ===== src/Lock.antt =====
-- src/api/src/common/redis/distributed-lock.service.ts, over a Redis server that is a parameter: its
-- commands, and what its documentation says of them. Times are seconds.
pub mod Exclusion
pub mod Cron
mod Tests
use iron_loot.Common.{
  ℕ, zero, suc, ◌+◌, ◌-◌, ◌*◌, ◌/◌, ◌%◌, ◌≤◌, ◌<◌, ◌≡◌, refl, sym, ap, ◌∙◌, ◌≢◌, ◌⊎◌, inl, inr,
  Bool, true, false, ◌&&◌, ◌||◌, not, Option, none, some, List, [], ◌∷◌, ◌++◌, map, arith, ltb, leb,
  ◌==◌, if◌then◌else◌, ==_iff, Bool-cases, Option-cases, ℤ, pos, negsuc, pos_part, neg_part, sub_ℕ,
  ◌+ℤ◌, ◌-ℤ◌, ◌≤ℤ◌, ◌<ℤ◌, ltb_ℤ, leb_ℤ, min_ℤ, max_ℤ, +ℤ_parts, -ℤ_parts, eq_of_parts, int_laws,
  All, length, select, find_first,
}
use iron_loot.Exec.{
  Error, Result, ok, err, ⊤, Exec, pure, raise, gets, or_raise, settle, transaction, recover, catch,
  raise_if, modify, continue, ◌>>=◌, ◌>>◌, attempt, not_found, bad_request, forbidden, validation,
  insufficient_balance, auction_not_found, auction_not_active, bid_too_low, bid_on_own_auction,
  order_not_found, user_not_found, unique_violation, record_missing, outcome_cases,
  connection_failed,
}
use iron_loot.Table.{
  Table, lookup, insert, lookup-insert, lookup-insert_self, lookup-insert_ne, find_first-insert,
}

-- A key of the server: its value and the seconds that it has left.
abbrev pub Entry : Type 0
Entry = Option (ℕ × ℕ)

abbrev pub after : ℕ → Entry → Entry
after t none = none
after t (some (v, left)) = if leb left t then none else some (v, left - t)

-- `SET key value EX ttl NX`, `DEL key`, whether the connection is down, and the passing of time, with what
-- they do to the keys.
pub record Redis (W : Type 0) : Type 1 where
  pub entry : ℕ → W → Entry
  pub is_down : W → Bool
  pub set_nx_ex : ℕ → ℕ → ℕ → W → Bool × W
  pub del : ℕ → W → W
  pub wait : ℕ → W → W
  pub set_taken :
      (k v ttl : ℕ) (w : W) (e : ℕ × ℕ) → entry k w ≡ some e → set_nx_ex k v ttl w ≡ (false, w)
  pub set_free :
      (k v ttl : ℕ) (w : W)
      → 0 < ttl
      → entry k w ≡ none
      → ((set_nx_ex k v ttl w).0 ≡ true) × (entry k (set_nx_ex k v ttl w).1 ≡ some (v, ttl))
  pub entry-del : (k : ℕ) (w : W) → entry k (del k w) ≡ none
  pub entry-wait : (k t : ℕ) (w : W) → entry k (wait t w) ≡ after t (entry k w)

module _ {W : Type 0} (redis : Redis W) where
  -- The value is a new `uuid()`, drawn by the caller. `some` is the value to release the lock with.
  unfoldable pub acquire_lock : ℕ → ℕ → ℕ → Exec W (Option ℕ)
  acquire_lock key ttl value = do
    raise_if (← gets redis.is_down) connection_failed
    set ← (λ w. let (r, w') = redis.set_nx_ex key value ttl w in (ok r, w'))
    pure (if set then some value else none)

  abbrev pub value_is : ℕ → Entry → Bool
  value_is value none = false
  value_is value (some (v, left)) = v == value

  -- The script compares and deletes in one step.
  abbrev pub compare_and_delete : ℕ → ℕ → Exec W Bool
  compare_and_delete key value w =
      if value_is value (redis.entry key w) then (ok true, redis.del key w) else (ok false, w)

  unfoldable pub release_lock : ℕ → ℕ → Exec W Bool
  release_lock key value = do
    raise_if (← gets redis.is_down) connection_failed
    compare_and_delete key value

  abbrev is_held : Entry → Bool
  is_held none = false
  is_held (some e) = true

  -- With the connection down it answers `false`.
  unfoldable pub is_locked : ℕ → Exec W Bool
  is_locked key w = (ok (not (redis.is_down w) && is_held (redis.entry key w)), w)
