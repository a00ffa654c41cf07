-- ===== src/Core/Order.antt =====
-- src/packages/core: the life of an order (order-status.enum.ts, order-state-machine.ts).
use iron_loot.Common.{ℕ, Bool, false, Option, none, some, List, [], ◌∷◌, ◌||◌, ◌==◌}

pub data OrderStatus : Type 0 where
  pending_payment paid shipped delivered cancelled refunded : OrderStatus

abbrev rank : OrderStatus → ℕ
rank pending_payment = 0
rank paid = 1
rank shipped = 2
rank delivered = 3
rank cancelled = 4
rank refunded = 5

abbrev pub same_status : OrderStatus → OrderStatus → Bool
same_status s t = rank s == rank t

abbrev pub has : OrderStatus → List OrderStatus → Bool
has s [] = false
has s (t ∷ ts) = same_status s t || has s ts

pub valid_order_transitions : OrderStatus → Option (List OrderStatus)
valid_order_transitions pending_payment = some (paid ∷ cancelled ∷ [])
valid_order_transitions paid = some (shipped ∷ refunded ∷ [])
valid_order_transitions shipped = some (delivered ∷ [])
valid_order_transitions delivered = some (refunded ∷ [])
valid_order_transitions cancelled = none
valid_order_transitions refunded = none

unfoldable pub can_transition : OrderStatus → OrderStatus → Bool
unfolding valid_order_transitions
can_transition from to = elim (valid_order_transitions from) [
  | some targets ↦ has to targets
  | none ↦ false
]
