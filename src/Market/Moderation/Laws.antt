-- ===== src/Market/Moderation/Laws.antt =====
-- What the moderation of src/api/src/modules/admin/admin.service.ts may do to an auction.
use iron_loot.Common.{
  ℕ, ◌≡◌, refl, ◌∙◌, ◌⊎◌, inl, inr, true, false, none, some, arith, Bool-cases, Option-cases,
}
use iron_loot.Exec.{Error, ok, err, ⊤, Exec, not_found, bad_request}
use iron_loot.Table.{lookup, insert}
use iron_loot.Core.Auction.{AuctionStatus, same_status, can_transition}
use iron_loot.Market.Rows.{Auction, Db}
use iron_loot.Market.Moderation.{
  is_over, assert_auction_modifiable, transicionar, approve_auction, reject_auction,
  suspend_auction, force_close_auction, reopen_auction, cancel_auction, approve_moderation,
}

-- A moderation through the state machine: its name is the status that it leads to.
pub data Moderation : Type 0 where
  approve reject suspend force_close reopen cancel : Moderation

unfoldable pub moderate : Moderation → ℕ → Exec Db ⊤
moderate approve id = approve_auction id
moderate reject id = reject_auction id
moderate suspend id = suspend_auction id
moderate force_close id = force_close_auction id
moderate reopen id = reopen_auction id
moderate cancel id = cancel_auction id

abbrev pub destination : Moderation → AuctionStatus
destination approve = AuctionStatus.published
destination reject = AuctionStatus.draft
destination suspend = AuctionStatus.suspended
destination force_close = AuctionStatus.closed
destination reopen = AuctionStatus.published
destination cancel = AuctionStatus.cancelled

-- The auction exists, the state machine allows the step, and its status is all that changes.
pub record Moderated (m : Moderation) (id : ℕ) (s : Db) : Type 0 where
  pub auction : Auction
  pub found : lookup id s.auctions ≡ some auction
  pub allowed : can_transition auction.status (destination m) ≡ true
  pub going_on : is_over auction.status ≡ false
  pub returns : moderate m id s ≡ (
    ok tt,
    record s { auctions = insert id (record auction { status = destination m }) s.auctions },
  )

over_is_final : (a b : AuctionStatus) → is_over a ≡ true → can_transition a b ≡ false
unfolding can_transition
over_is_final AuctionStatus.closed b h = refl
over_is_final AuctionStatus.cancelled b h = refl
over_is_final AuctionStatus.draft b h = absurd (ground arith)
over_is_final AuctionStatus.published b h = absurd (ground arith)
over_is_final AuctionStatus.active b h = absurd (ground arith)
over_is_final AuctionStatus.suspended b h = absurd (ground arith)
over_is_final AuctionStatus.pending_moderation b h = absurd (ground arith)

module _ (id : ℕ) (s : Db) (a : Auction) (f : lookup id s.auctions ≡ some a) where
  modifiable : is_over a.status ≡ false → assert_auction_modifiable id s ≡ (ok tt, s)
  unfolding assert_auction_modifiable
  modifiable h = ground arith

  moderate_going :
      is_over a.status ≡ false
      → (m : Moderation) → moderate m id s ≡ transicionar id (destination m) s
  unfolding moderate approve_auction reject_auction suspend_auction force_close_auction
      reopen_auction cancel_auction
  moderate_going h approve = rw (modifiable h) refl
  moderate_going h reject = rw (modifiable h) refl
  moderate_going h suspend = rw (modifiable h) refl
  moderate_going h force_close = rw (modifiable h) refl
  moderate_going h reopen = refl
  moderate_going h cancel = refl

  transicionar_done :
      (d : AuctionStatus)
      → same_status a.status d ≡ false
      → can_transition a.status d ≡ true
      → transicionar id d s
        ≡ (ok tt, record s { auctions = insert id (record a { status = d }) s.auctions })
  unfolding transicionar
  transicionar_done d q t = ground arith

  transicionar_refused :
      (d : AuctionStatus)
      → (same_status a.status d ≡ true) ⊎ (can_transition a.status d ≡ false)
      → (e : Error) × (transicionar id d s ≡ (err e, s))
  unfolding transicionar
  transicionar_refused d (inl q) = (bad_request, ground arith)
  transicionar_refused d (inr t) = elim (Bool-cases (same_status a.status d)) [
    | inl q ↦ (bad_request, ground arith)
    | inr q ↦ (bad_request, ground arith)
  ]

over_unmodifiable :
    (id : ℕ) (s : Db) (a : Auction)
    → lookup id s.auctions ≡ some a
    → is_over a.status ≡ true
    → assert_auction_modifiable id s ≡ (err bad_request, s)
unfolding assert_auction_modifiable
over_unmodifiable id s a f h = ground arith

over_refused :
    (m : Moderation) (id : ℕ) (s : Db) (a : Auction)
    → lookup id s.auctions ≡ some a
    → is_over a.status ≡ true
    → (e : Error) × (moderate m id s ≡ (err e, s))
unfolding moderate approve_auction reject_auction suspend_auction force_close_auction reopen_auction
    cancel_auction
over_refused approve id s a f h = (bad_request, rw (over_unmodifiable id s a f h) refl)
over_refused reject id s a f h = (bad_request, rw (over_unmodifiable id s a f h) refl)
over_refused suspend id s a f h = (bad_request, rw (over_unmodifiable id s a f h) refl)
over_refused force_close id s a f h = (bad_request, rw (over_unmodifiable id s a f h) refl)
over_refused reopen id s a f h =
    transicionar_refused id s a f AuctionStatus.published
      (inr (over_is_final a.status AuctionStatus.published h))
over_refused cancel id s a f h =
    transicionar_refused id s a f AuctionStatus.cancelled
      (inr (over_is_final a.status AuctionStatus.cancelled h))

missing_refused :
    (m : Moderation) (id : ℕ) (s : Db)
    → lookup id s.auctions ≡ none
    → moderate m id s ≡ (err not_found, s)
unfolding moderate approve_auction reject_auction suspend_auction force_close_auction reopen_auction
    cancel_auction assert_auction_modifiable transicionar
missing_refused approve id s f = ground arith
missing_refused reject id s f = ground arith
missing_refused suspend id s f = ground arith
missing_refused force_close id s f = ground arith
missing_refused reopen id s f = ground arith
missing_refused cancel id s f = ground arith

going_cases :
    (m : Moderation) (id : ℕ) (s : Db) (a : Auction)
    → lookup id s.auctions ≡ some a
    → is_over a.status ≡ false
    → Moderated m id s ⊎ ((e : Error) × (moderate m id s ≡ (err e, s)))
going_cases m id s a f h =
    let d = destination m in
    let g = moderate_going id s a f h m in
    elim (Bool-cases (same_status a.status d)) [
      | inl q ↦ let (e, r) = transicionar_refused id s a f d (inl q) in inr (e, g ∙ r)
      | inr q ↦ elim (Bool-cases (can_transition a.status d)) [
        | inr t ↦ let (e, r) = transicionar_refused id s a f d (inr t) in inr (e, g ∙ r)
        | inl t ↦ inl (record {
          auction = a;
          found = f;
          allowed = t;
          going_on = h;
          returns = g ∙ transicionar_done id s a f d q t;
        })
      ]
    ]

-- Approving, rejecting, suspending, closing, reopening and cancelling an auction either throw and
-- write nothing, or find an auction that is not over and for which the state machine allows the
-- step, and then its status is all that changes.
pub moderate_cases :
    (m : Moderation) (id : ℕ) (s : Db)
    → Moderated m id s ⊎ ((e : Error) × (moderate m id s ≡ (err e, s)))
moderate_cases m id s = elim (Option-cases (lookup id s.auctions)) [
  | inl f ↦ inr (not_found, missing_refused m id s f)
  | inr (a, f) ↦ elim (Bool-cases (is_over a.status)) [
    | inl h ↦ inr (over_refused m id s a f h)
    | inr h ↦ going_cases m id s a f h
  ]
]

-- The queue of moderation publishes an auction that is closed or cancelled, which the state machine
-- does not allow.
pub approve_moderation-publishes :
    (id : ℕ) (s : Db) (a : Auction)
    → lookup id s.auctions ≡ some a
    → is_over a.status ≡ true
    → (approve_moderation id s ≡ (
      ok tt,
      record s { auctions = insert id (record a { status = AuctionStatus.published }) s.auctions },
    ))
      × (can_transition a.status AuctionStatus.published ≡ false)
unfolding approve_moderation
approve_moderation-publishes id s a f h =
    (ground arith, over_is_final a.status AuctionStatus.published h)
