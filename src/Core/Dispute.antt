-- ===== src/Core/Dispute.antt =====
-- src/packages/core: the life of a dispute (dispute-status.enum.ts, dispute-state-machine.ts).
use iron_loot.Common.{ℕ, ◌+◌, ◌*◌, Bool, false, Option, none, some, List, [], ◌∷◌, ◌||◌, ◌==◌, leb}

pub data DisputeStatus : Type 0 where
  open_case in_mediation resolved closed : DisputeStatus

abbrev rank : DisputeStatus → ℕ
rank open_case = 0
rank in_mediation = 1
rank resolved = 2
rank closed = 3

abbrev pub same_status : DisputeStatus → DisputeStatus → Bool
same_status s t = rank s == rank t

abbrev pub has : DisputeStatus → List DisputeStatus → Bool
has s [] = false
has s (t ∷ ts) = same_status s t || has s ts

pub valid_dispute_transitions : DisputeStatus → Option (List DisputeStatus)
valid_dispute_transitions open_case = some (in_mediation ∷ closed ∷ [])
valid_dispute_transitions in_mediation = some (resolved ∷ closed ∷ [])
valid_dispute_transitions resolved = some (closed ∷ [])
valid_dispute_transitions closed = none

unfoldable pub can_transition : DisputeStatus → DisputeStatus → Bool
unfolding valid_dispute_transitions
can_transition from to = elim (valid_dispute_transitions from) [
  | some targets ↦ has to targets
  | none ↦ false
]

abbrev pub dispute_window_days : ℕ
dispute_window_days = 14

abbrev pub window_ms : ℕ
window_ms = dispute_window_days * 24 * 60 * 60 * 1000

-- `now - delivered_at <= window_ms`, without the subtraction, which may be negative.
unfoldable pub can_open_dispute : ℕ → ℕ → Bool
can_open_dispute delivered_at now = leb now (delivered_at + window_ms)
