-- ===== src/Core/Tests.antt =====
-- The life cycles at concrete paths.
use iron_loot.Common.{◌+◌, ◌≤◌, refl}
use iron_loot.Core.Order.{OrderStatus}
use iron_loot.Core.Order
use iron_loot.Core.Lifecycles.{Moves, order_left, order-Moves-le}

bought : Moves Order.can_transition 4 OrderStatus.pending_payment OrderStatus.refunded
unfolding Order.can_transition
bought = Moves.move {b = OrderStatus.paid} refl (
    Moves.move {b = OrderStatus.shipped} refl
      (Moves.move {b = OrderStatus.delivered} refl (Moves.move refl Moves.stay)))

order-Moves-le_example :
    4 + order_left OrderStatus.refunded ≤ order_left OrderStatus.pending_payment
order-Moves-le_example = order-Moves-le bought
