-- ===== src/Lock/Exclusion.antt =====
-- The lock under calls and seconds in any order.
use iron_loot.Common.{
  ℕ, ◌+◌, ◌-◌, ◌≤◌, ◌<◌, ◌≡◌, ap, ◌∙◌, ◌≢◌, inl, inr, false, Option, none, some, List, [], ◌∷◌,
  arith, Bool-cases, Option-cases, All,
}
use iron_loot.Exec.{ok}
use iron_loot.Lock.{Redis, acquire_lock, release_lock}

-- What instances and time do to one lock: calls of the service with a value, and seconds that pass.
pub data Event : Type 0 where
  acquire : (ttl value : ℕ) → Event
  release : (value : ℕ) → Event
  wait : (seconds : ℕ) → Event

abbrev pub elapsed : List Event → ℕ
elapsed [] = 0
elapsed (Event.acquire ttl value ∷ es) = elapsed es
elapsed (Event.release value ∷ es) = elapsed es
elapsed (Event.wait t ∷ es) = t + elapsed es

-- Nobody but its owner knows the value.
abbrev pub IsOthers : ℕ → Event → Type 0
IsOthers v (Event.acquire ttl value) = Unit
IsOthers v (Event.release value) = value ≢ v
IsOthers v (Event.wait t) = Unit

module _ {W : Type 0} (redis : Redis W) (k : ℕ) where
  unfoldable pub perform : Event → W → W
  perform (Event.acquire ttl value) w = (acquire_lock redis k ttl value w).1
  perform (Event.release value) w = (release_lock redis k value w).1
  perform (Event.wait t) w = redis.wait t w

  unfoldable pub perform_all : List Event → W → W
  perform_all [] w = w
  perform_all (e ∷ es) w = perform_all es (perform e w)

  -- Every attempt to acquire the lock fails, or throws since the connection is down.
  pub NoneAcquires : List Event → W → Type 0
  NoneAcquires [] w = Unit
  NoneAcquires (Event.acquire ttl value ∷ es) w =
      ((r : Option ℕ) → (acquire_lock redis k ttl value w).0 ≡ ok r → r ≡ none)
      × NoneAcquires es (perform (Event.acquire ttl value) w)
  NoneAcquires (Event.release value ∷ es) w = NoneAcquires es (perform (Event.release value) w)
  NoneAcquires (Event.wait t ∷ es) w = NoneAcquires es (perform (Event.wait t) w)

  acquire_taken :
      (ttl value : ℕ) (e : ℕ × ℕ) (w : W)
      → redis.entry k w ≡ some e
      → ((acquire_lock redis k ttl value w).1 ≡ w)
        × ((r : Option ℕ) → (acquire_lock redis k ttl value w).0 ≡ ok r → r ≡ none)
  unfolding acquire_lock
  acquire_taken ttl value e w h = elim (Bool-cases (redis.is_down w)) [
    | inl d ↦ (ground arith, λ r q. absurd (ground arith))
    | inr d ↦ (
      ground (arith, redis.set_taken k value ttl w e h),
      λ r q. ground (arith, redis.set_taken k value ttl w e h),
    )
  ]

  -- Who does not have the value does not release the lock.
  pub release_lock_others :
      (v value left : ℕ) (w : W)
      → redis.entry k w ≡ some (v, left)
      → value ≢ v
      → (release_lock redis k value w).1 ≡ w
  unfolding release_lock
  release_lock_others v value left w h ne = elim (Bool-cases (redis.is_down w)) [
    | inl d ↦ ground arith
    | inr d ↦ ground arith
  ]

  pub acquired :
      (v ttl : ℕ) (w : W)
      → 0 < ttl
      → (acquire_lock redis k ttl v w).0 ≡ ok (some v)
      → redis.entry k (acquire_lock redis k ttl v w).1 ≡ some (v, ttl)
  unfolding acquire_lock
  acquired v ttl w p h = elim (Bool-cases (redis.is_down w)) [
    | inl d ↦ absurd (ground arith)
    | inr d ↦ elim (Option-cases (redis.entry k w)) [
      | inl e ↦ ground (arith, redis.set_free k v ttl w p e)
      | inr (e, q) ↦ absurd (ground (arith, redis.set_taken k v ttl w e q))
    ]
  ]

  free_acquired :
      (v ttl : ℕ) (w : W)
      → 0 < ttl
      → redis.is_down w ≡ false
      → redis.entry k w ≡ none
      → (acquire_lock redis k ttl v w).0 ≡ ok (some v)
  unfolding acquire_lock
  free_acquired v ttl w p up e = ground (arith, redis.set_free k v ttl w p e)

  held_after :
      (es : List Event) (v left : ℕ) (w : W)
      → redis.entry k w ≡ some (v, left)
      → All (IsOthers v) es
      → elapsed es < left
      → NoneAcquires es w × (redis.entry k (perform_all es w) ≡ some (v, left - elapsed es))
  unfolding perform_all perform NoneAcquires
  held_after [] v left w h others short = (tt, ground arith)
  held_after (Event.acquire ttl value ∷ es) v left w h others short =
      let a = acquire_taken ttl value (v, left) w h in
      let rest = held_after es v left w h others.1 short in rw (a.0) ((a.1, rest.0), rest.1)
  held_after (Event.release value ∷ es) v left w h others short =
      let rest = held_after es v left w h others.1 short in
      rw (release_lock_others v value left w h others.0) (rest.0, rest.1)
  held_after (Event.wait t ∷ es) v left w h others short =
      let rest =
        held_after es v (left - t) (redis.wait t w) (ground (arith, redis.entry-wait k t w))
          others.1 (omega arith) in
      (rest.0, rest.1 ∙ ap (λ n. some (v, n)) (omega arith))

  -- Who has acquired the lock has it alone: as long as less than its time to live passes and nobody
  -- else releases it with the owner's value, no call acquires it, in whatever order calls and time
  -- come, and the key keeps the owner's value.
  pub acquire_lock-excludes :
      (v ttl : ℕ) (es : List Event) (w : W)
      → (acquire_lock redis k ttl v w).0 ≡ ok (some v)
      → All (IsOthers v) es
      → elapsed es < ttl
      → NoneAcquires es (acquire_lock redis k ttl v w).1
        × (redis.entry k (perform_all es (acquire_lock redis k ttl v w).1)
            ≡ some (v, ttl - elapsed es))
  acquire_lock-excludes v ttl es w h others short =
      held_after es v ttl (acquire_lock redis k ttl v w).1 (acquired v ttl w (omega arith) h) others
        short

  -- Once a positive time to live has passed after an acquisition, the next call acquires the lock,
  -- released or not, if the connection is up.
  pub acquire_lock-expires :
      (v ttl t value : ℕ) (w : W)
      → 0 < ttl
      → (acquire_lock redis k ttl v w).0 ≡ ok (some v)
      → ttl ≤ t
      → redis.is_down (redis.wait t (acquire_lock redis k ttl v w).1) ≡ false
      → (acquire_lock redis k ttl value (redis.wait t (acquire_lock redis k ttl v w).1)).0
        ≡ ok (some value)
  acquire_lock-expires v ttl t value w p h passed up =
      let w₁ = (acquire_lock redis k ttl v w).1 in
      free_acquired value ttl (redis.wait t w₁) p up
        (ground (arith, redis.entry-wait k t w₁, acquired v ttl w p h))
