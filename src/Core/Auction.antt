-- ===== src/Core/Auction.antt =====
-- src/packages/core: the life of an auction (auction-status.enum.ts, auction-state-machine.ts).
use iron_loot.Common.{ℕ, Bool, false, Option, none, some, List, [], ◌∷◌, not, ◌||◌, ◌==◌}

pub data AuctionStatus : Type 0 where
  draft published active closed cancelled suspended pending_moderation : AuctionStatus

abbrev rank : AuctionStatus → ℕ
rank draft = 0
rank published = 1
rank active = 2
rank closed = 3
rank cancelled = 4
rank suspended = 5
rank pending_moderation = 6

-- `===` on statuses.
abbrev pub same_status : AuctionStatus → AuctionStatus → Bool
same_status s t = rank s == rank t

-- `ReadonlySet.has`
abbrev pub has : AuctionStatus → List AuctionStatus → Bool
has s [] = false
has s (t ∷ ts) = same_status s t || has s ts

-- A status with no entry in the map is terminal.
pub valid_transitions : AuctionStatus → Option (List AuctionStatus)
valid_transitions draft = some (published ∷ cancelled ∷ [])
valid_transitions published = some (active ∷ cancelled ∷ suspended ∷ closed ∷ [])
valid_transitions active = some (closed ∷ cancelled ∷ suspended ∷ [])
valid_transitions pending_moderation = some (published ∷ cancelled ∷ draft ∷ [])
valid_transitions suspended = some (published ∷ cancelled ∷ [])
valid_transitions closed = none
valid_transitions cancelled = none

abbrev scheduler_blocked : List AuctionStatus
scheduler_blocked = pending_moderation ∷ suspended ∷ []

unfoldable pub can_transition : AuctionStatus → AuctionStatus → Bool
unfolding valid_transitions
can_transition from to = elim (valid_transitions from) [
  | some targets ↦ has to targets
  | none ↦ false
]

unfoldable pub is_scheduler_auto_transition_allowed : AuctionStatus → Bool
is_scheduler_auto_transition_allowed status = not (has status scheduler_blocked)
