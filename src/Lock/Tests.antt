-- ===== src/Lock/Tests.antt =====
-- A server in memory, and the lock's theorems on it.
use iron_loot.Common.{
  ℕ, ◌<◌, ◌≡◌, refl, Bool, true, false, none, some, List, [], ◌∷◌, arith, ◌==◌, if◌then◌else◌,
}
use iron_loot.Exec.{ok}
use iron_loot.Lock.{Entry, after, Redis, acquire_lock}
use iron_loot.Lock.Exclusion.{Event, NoneAcquires, perform_all, acquire_lock-excludes}

-- The keys, and whether the connection is down.
abbrev Memory : Type 0
Memory = (ℕ → Entry) × Bool

abbrev set_if_free : ℕ → ℕ → ℕ → Memory → Entry → Bool × Memory
set_if_free k v ttl w (some e) = (false, w)
set_if_free k v ttl w none = (true, (λ j. if j == k then some (v, ttl) else w.0 j, w.1))

memory_taken :
    (k v ttl : ℕ) (w : Memory) (e : ℕ × ℕ)
    → w.0 k ≡ some e
    → set_if_free k v ttl w (w.0 k) ≡ (false, w)
memory_taken k v ttl w e h = ground arith

memory_free :
    (k v ttl : ℕ) (w : Memory)
    → 0 < ttl
    → w.0 k ≡ none
    → ((set_if_free k v ttl w (w.0 k)).0 ≡ true)
      × ((set_if_free k v ttl w (w.0 k)).1.0 k ≡ some (v, ttl))
memory_free k v ttl w p h = ground arith

memory_deleted : (k : ℕ) (w : Memory) → (if k == k then none else w.0 k) ≡ none
memory_deleted k w = ground arith

abbrev memory : Redis Memory
memory = record {
  entry = λ k w. w.0 k;
  is_down = λ w. w.1;
  set_nx_ex = λ k v ttl w. set_if_free k v ttl w (w.0 k);
  del = λ k w. (λ j. if j == k then none else w.0 j, w.1);
  wait = λ t w. (λ j. after t (w.0 j), w.1);
  set_taken = memory_taken;
  set_free = memory_free;
  entry-del = memory_deleted;
  entry-wait = λ k t w. refl;
}

abbrev empty : Memory
empty = (λ j. none, false)

acquired_ok : (acquire_lock memory 0 60 11 empty).0 ≡ ok (some 11)
unfolding acquire_lock
acquired_ok = refl

-- Two other instances try while the first one works.
abbrev others : List Event
others = Event.acquire 60 12 ∷ Event.wait 30 ∷ Event.release 12 ∷ Event.acquire 60 13 ∷ []

acquire_lock-excludes_example :
    NoneAcquires memory 0 others (acquire_lock memory 0 60 11 empty).1
    × (memory.entry 0 (perform_all memory 0 others (acquire_lock memory 0 60 11 empty).1)
        ≡ some (11, 30))
acquire_lock-excludes_example =
    acquire_lock-excludes memory 0 11 60 others empty acquired_ok
      (tt, (tt, ((omega arith), (tt, tt)))) (omega arith)

still_up : memory.is_down (memory.wait 61 (acquire_lock memory 0 60 11 empty).1) ≡ false
unfolding acquire_lock
still_up = refl
