-- ===== src/Core/Lifecycles.antt =====
-- The life cycle of an order as a graph: how long it can go on moving.
use iron_loot.Common.{ℕ, zero, suc, ◌+◌, ◌≤◌, ◌<◌, ◌≡◌, Bool, true, arith}
use iron_loot.Core.Order
use iron_loot.Core.Order.{OrderStatus}

-- `n` transitions, one after another, each of which the map allows.
module _ {A : Type 0} (allowed : A → A → Bool) where
  pub data Moves : ℕ → A → A → Type 0 where
    stay : {a : A} → Moves zero a a
    move : {n : ℕ} {a b c : A} → allowed a b ≡ true → Moves n b c → Moves (suc n) a c

-- How many transitions an order has before it.
abbrev pub order_left : OrderStatus → ℕ
order_left OrderStatus.pending_payment = 4
order_left OrderStatus.paid = 3
order_left OrderStatus.shipped = 2
order_left OrderStatus.delivered = 1
order_left OrderStatus.cancelled = 0
order_left OrderStatus.refunded = 0

order_step-lt : (a b : OrderStatus) → Order.can_transition a b ≡ true → order_left b < order_left a
unfolding Order.can_transition
order_step-lt a b h = ground arith

-- An order makes at most four transitions, and never comes back to a status: each lowers what is
-- left of its life.
pub order-Moves-le :
    {n : ℕ} {a b : OrderStatus} → Moves Order.can_transition n a b → n + order_left b ≤ order_left a
order-Moves-le stay = omega arith
order-Moves-le (move {a = a} {b = b} h m) = omega (arith, order_step-lt a b h, order-Moves-le m)
