-- ===== src/Payments/Promises.antt =====
-- What a deposit promises, and that the code of src/api/src/modules/payments keeps it.
use iron_loot.Common.{
  ℕ, ◌≡◌, refl, inl, inr, Bool, true, false, ◌&&◌, Option, none, some, List, [], ◌∷◌, arith, ◌==◌,
  if◌then◌else◌, Bool-cases, ℤ,
}
use iron_loot.Table.{Table, lookup, insert, lookup-insert, lookup-insert_self}
use iron_loot.Wallet.Rows.{Ledger, LedgerType, ReferenceType}
use iron_loot.Wallet.Posting.{balance_of}
use iron_loot.Wallet.Deposits.{deposited}
use iron_loot.Payments.Rows.{PaymentProvider, WebhookResult, PaymentCycle, Db}
use iron_loot.Payments.Cycle.{is_open}
use iron_loot.Payments.Decisions.{settled_cycle}
use iron_loot.Payments.Credit.{apply_provider_result}
use iron_loot.Payments.Answers.{
  Closes, Credits, Reopens, reopened_cycle, apply_provider_result_cases,
}

-- The abstract view of a reference: not asked for; asked for by a user, with an amount; paid, to a
-- user and with an amount, by the ledger; closed without being paid. A stray one is none of these.
pub data Deposit : Type 0 where
  absent : Deposit
  asked paid : ℕ → ℤ → Deposit
  closed stray : Deposit

abbrev is_deposit : LedgerType → ReferenceType → Bool
is_deposit LedgerType.deposit ReferenceType.deposit = true
is_deposit _ _ = false

-- The ledger's deposits under a reference, the newest first.
unfoldable pub credits : ℕ → List Ledger → List Ledger
credits r [] = []
credits r (e ∷ es) =
    let rest = credits r es in
    if is_deposit e.type e.reference_type && (e.reference_id == r) then e ∷ rest else rest

abbrev pub viewed : Option PaymentCycle → List Ledger → Deposit
viewed none [] = absent
viewed none (e ∷ es) = stray
viewed (some c) [] = if is_open c.status then asked c.user_id c.amount else closed
viewed (some c) (e ∷ []) = if is_open c.status then stray else paid e.wallet e.amount
viewed (some c) (e ∷ f ∷ es) = stray

unfoldable pub view : ℕ → Db → Deposit
view r s = viewed (lookup r s.cycles) (credits r s.books.ledger)

-- The specification's steps: a deposit is paid as it was asked for, once, or closed.
pub data Step : Deposit → Deposit → Type 0 where
  stays : {d : Deposit} → Step d d
  asks : {u : ℕ} {x : ℤ} → Step absent (asked u x)
  pays : {u : ℕ} {x : ℤ} → Step (asked u x) (paid u x)
  closes : {u : ℕ} {x : ℤ} → Step (asked u x) closed
  strays : {d : Deposit} → Step stray d

pub data Steps : Deposit → Deposit → Type 0 where
  ends : {d : Deposit} → Steps d d
  goes : {a b c : Deposit} → Step a b → Steps b c → Steps a c

==_sym : (a b : ℕ) → (b == a) ≡ (a == b)
==_sym a b = ground arith

module _ (r k : ℕ) (user : ℕ) (amount before : ℤ) (at : ℕ) (es : List Ledger) where
  credits-deposited : credits r (deposited user amount before k ReferenceType.deposit at ∷ es) ≡ (
      if k == r
      then deposited user amount before k ReferenceType.deposit at ∷ credits r es
      else credits r es)
  unfolding credits
  credits-deposited = ground arith

-- The steps of one reference, from what is written to its cycle and to the ledger.
module _ (c : PaymentCycle) where
  pub step-closes :
      (d : PaymentCycle) (es : List Ledger)
      → is_open d.status ≡ false
      → Step (viewed (some c) es) (viewed (some d) es)
  step-closes d [] h = elim (Bool-cases (is_open c.status)) [
    | inl q ↦ rw (q, h) closes
    | inr q ↦ rw (q, h) stays
  ]
  step-closes d (e ∷ []) h = elim (Bool-cases (is_open c.status)) [
    | inl q ↦ rw (q, h) strays
    | inr q ↦ rw (q, h) stays
  ]
  step-closes d (e ∷ f ∷ es) h = strays

  step-pays :
      (d : PaymentCycle) (e : Ledger) (es : List Ledger)
      → is_open c.status ≡ true
      → is_open d.status ≡ false
      → e.wallet ≡ c.user_id
      → e.amount ≡ c.amount
      → Step (viewed (some c) es) (viewed (some d) (e ∷ es))
  step-pays d e [] q h eu ea = rw (q, h, eu, ea) pays
  step-pays d e (f ∷ []) q h eu ea = rw q strays
  step-pays d e (f ∷ g ∷ es) q h eu ea = strays

  step-reopens :
      (d : PaymentCycle) (es : List Ledger)
      → is_open c.status ≡ true
      → is_open d.status ≡ true
      → d.user_id ≡ c.user_id
      → d.amount ≡ c.amount
      → Step (viewed (some c) es) (viewed (some d) es)
  step-reopens d [] q h eu ea = rw (q, h, eu, ea) stays
  step-reopens d (e ∷ []) q h eu ea = rw q strays
  step-reopens d (e ∷ f ∷ es) q h eu ea = strays

-- What the view of a reference reads, once the row of `k` is written.
module _ (r k : ℕ) (c d : PaymentCycle) (t : Table PaymentCycle) (f : lookup k t ≡ some c) where
  pub found-at : (r == k) ≡ true → lookup r t ≡ some c
  found-at h = ground arith

  pub written-at : (r == k) ≡ true → lookup r (insert k d t) ≡ some d
  written-at h = rw (lookup-insert r k d t, h) refl

  pub kept-at : (r == k) ≡ false → lookup r (insert k d t) ≡ lookup r t
  kept-at h = rw (lookup-insert r k d t, h) refl

module _ (r : ℕ) (provider : PaymentProvider) (result : WebhookResult) (s : Db) where
  Closes-Step : (m : Closes provider result s) → Step (view r s) (view r m.after)
  unfolding view
  Closes-Step m = rw m.same_books (elim m.cycles [
    | inl (e, _) ↦ rw e stays
    | inr (c, d, f, e, q) ↦
        let k = result.external_id in
        elim (Bool-cases (r == k)) [
          | inl h ↦
              rw (e, written-at r k c d s.cycles f h, found-at r k c d s.cycles f h)
                (step-closes c d (credits r s.books.ledger) q)
          | inr h ↦ rw (e, kept-at r k c d s.cycles f h) stays
        ]
  ])

  Credits-Step : (m : Credits provider result s) → Step (view r s) (view r m.after)
  unfolding view
  Credits-Step m =
      let k = result.external_id in
      let c = m.cycle in
      let d = settled_cycle result s.books.now c in
      let e = m.paid.ledger in
      let before = balance_of c.user_id s.books.wallets in
      let n = deposited c.user_id c.amount before k ReferenceType.deposit s.books.now in
      elim (Bool-cases (r == k)) [
        | inl h ↦
            rw
              (
                m.cycles,
                written-at r k c d s.cycles m.found h,
                found-at r k c d s.cycles m.found h,
                e,
                credits-deposited r k c.user_id c.amount before s.books.now s.books.ledger,
                ==_sym r k,
                h,
              )
              (step-pays c d n (credits r s.books.ledger) m.waits refl refl refl)
        | inr h ↦
            rw
              (
                m.cycles,
                kept-at r k c d s.cycles m.found h,
                e,
                credits-deposited r k c.user_id c.amount before s.books.now s.books.ledger,
                ==_sym r k,
                h,
              )
              stays
      ]

  Reopens-Step : (m : Reopens provider result s) → Step (view r s) (view r m.after)
  unfolding view
  Reopens-Step m =
      let k = result.external_id in
      let c = m.cycle in
      let b = settled_cycle result s.books.now c in
      let d = reopened_cycle result s.books.now c in
      let t = insert k b s.cycles in
      elim (Bool-cases (r == k)) [
        | inl h ↦
            rw
              (
                m.same_books,
                m.cycles,
                written-at r k b d t (lookup-insert_self k b s.cycles) h,
                found-at r k c d s.cycles m.found h,
              )
              (step-reopens c d (credits r s.books.ledger) m.waits refl refl refl)
        | inr h ↦
            rw
              (
                m.same_books,
                m.cycles,
                kept-at r k b d t (lookup-insert_self k b s.cycles) h,
                kept-at r k c b s.cycles m.found h,
              )
              stays
      ]

  -- Whatever a provider answers, and whether the call returns or throws, every deposit takes a step
  -- of the specification.
  pub apply_provider_result-Step :
      Step (view r s) (view r (apply_provider_result provider result s).1)
  apply_provider_result-Step = elim (apply_provider_result_cases provider result s) [
    | inl m ↦ rw m.returns (Closes-Step m)
    | inr (inl m) ↦ rw m.returns (Credits-Step m)
    | inr (inr m) ↦ rw m.returns (Reopens-Step m)
  ]
