-- ===== src/Payments/Refinements.antt =====
-- Which calls of src/api/src/modules/payments keep the promise of the deposits: those that are put
-- together from such calls, and the writes of cycles.
use iron_loot.Common.{
  ℕ, ◌≡◌, refl, ◌⊎◌, inl, inr, true, false, Option, none, some, List, [], ◌∷◌, arith, ◌==◌,
  Bool-cases, Option-cases, ℤ,
}
use iron_loot.Exec.{
  Error, Result, ok, err, ⊤, Exec, pure, raise, continue, ◌>>=◌, bad_request, record_missing,
}
use iron_loot.Table.{Table, lookup, insert, lookup-insert}
use iron_loot.Wallet.Rows.{Ledger}
use iron_loot.Payments.Rows.{
  PaymentProvider, PaymentCycle, Currency, TraceStep, TraceOutcome, Db, cycle_update,
}
use iron_loot.Payments.Registry.{Adapter}
use iron_loot.Payments.Cycle.{is_open, open_cycle, attach_provider_ref}
use iron_loot.Payments.Checks.{expire, schedule_next_check}
use iron_loot.Payments.Entries.{create_with, trace, called}
use iron_loot.Payments.Promises.{
  Deposit, credits, viewed, view, Step, stays, asks, strays, Steps, ends, goes, step-closes,
  written-at, found-at, kept-at,
}

pub Steps-join : {a b c : Deposit} → Steps a b → Steps b c → Steps a c
Steps-join ends h = h
Steps-join (goes x g) h = goes x (Steps-join g h)

pub one : {a b : Deposit} → Step a b → Steps a b
one x = goes x ends

-- Whatever the call ends with, every deposit takes steps of the specification.
abbrev pub Refines : {A : Type 0} → Exec Db A → Type 0
Refines m = (r : ℕ) (s : Db) → Steps (view r s) (view r (m s).1)

module _ {A B : Type 0} where
  continue-Steps :
      (f : A → Exec Db B) (g : (a : A) → Refines (f a)) (r : ℕ) (s : Db) (m : Result A × Db)
      → Steps (view r s) (view r m.1)
      → Steps (view r s) (view r (continue f m).1)
  continue-Steps f g r s (ok a, s') h = Steps-join h (g a r s')
  continue-Steps f g r s (err e, s') h = h

  pub bind-Refines :
      (m : Exec Db A) (f : A → Exec Db B)
      → Refines m
      → ((a : A) → Refines (f a))
      → Refines (m >>= f)
  bind-Refines m f h g r s = continue-Steps f g r s (m s) (h r s)

pub pure-Refines : {A : Type 0} (a : A) → Refines (pure a)
pure-Refines a r s = ends

pub raise-Refines : (A : Type 0) (e : Error) → Refines (raise {A = A} e)
raise-Refines A e r s = ends

pub called-Refines : {A : Type 0} (a : Result A) → Refines (called a)
called-Refines (ok a) r s = ends
called-Refines (err e) r s = ends

-- What a write may do to a cycle: close it, or keep what the view reads of it.
abbrev IsHarmless : PaymentCycle → PaymentCycle → Type 0
IsHarmless c d =
    (is_open d.status ≡ false)
    ⊎ ((is_open d.status ≡ is_open c.status) × (d.user_id ≡ c.user_id) × (d.amount ≡ c.amount))

viewed-same :
    (c d : PaymentCycle) (es : List Ledger)
    → is_open d.status ≡ is_open c.status
    → d.user_id ≡ c.user_id
    → d.amount ≡ c.amount
    → viewed (some d) es ≡ viewed (some c) es
viewed-same c d [] q u x = rw (q, u, x) refl
viewed-same c d (e ∷ []) q u x = rw q refl
viewed-same c d (e ∷ f ∷ es) q u x = refl

pub harmless-Step :
    (c d : PaymentCycle) (es : List Ledger)
    → IsHarmless c d
    → Step (viewed (some c) es) (viewed (some d) es)
harmless-Step c d es (inl q) = step-closes c d es q
harmless-Step c d es (inr (q, u, x)) = rw (viewed-same c d es q u x) stays

module _ (k : ℕ) (f : PaymentCycle → PaymentCycle) (s : Db) where
  cycle_update-none : lookup k s.cycles ≡ none → cycle_update k f s ≡ (err record_missing, s)
  unfolding cycle_update
  cycle_update-none e = ground arith

  cycle_update-some :
      (c : PaymentCycle)
      → lookup k s.cycles ≡ some c
      → cycle_update k f s ≡ (ok tt, record s { cycles = insert k (f c) s.cycles })
  unfolding cycle_update
  cycle_update-some c e = ground arith

pub cycle_update-Refines :
    (k : ℕ) (f : PaymentCycle → PaymentCycle)
    → ((c : PaymentCycle) → IsHarmless c (f c))
    → Refines (cycle_update k f)
unfolding view
cycle_update-Refines k f h r s = elim (Option-cases (lookup k s.cycles)) [
  | inl e ↦ rw (cycle_update-none k f s e) ends
  | inr (c, e) ↦ rw (cycle_update-some k f s c e) (elim (Bool-cases (r == k)) [
    | inl q ↦
        rw (written-at r k c (f c) s.cycles e q, found-at r k c (f c) s.cycles e q)
          (one (harmless-Step c (f c) (credits r s.books.ledger) (h c)))
    | inr q ↦ rw (kept-at r k c (f c) s.cycles e q) ends
  ])
]

pub attach_provider_ref-Refines : (k : ℕ) (x : Option ℕ) → Refines (attach_provider_ref k x)
unfolding attach_provider_ref
attach_provider_ref-Refines k none r s = ends
attach_provider_ref-Refines k (some x) r s =
    cycle_update-Refines k (λ c. record c { provider_ref = some x }) (λ c. inr (refl, refl, refl)) r
      s

pub expire-Refines : (k : ℕ) → Refines (expire k)
unfolding expire
expire-Refines k = cycle_update-Refines k _ (λ c. inl refl)

pub schedule_next_check-Refines : (k n : ℕ) → Refines (schedule_next_check k n)
unfolding schedule_next_check
schedule_next_check-Refines k n r s = cycle_update-Refines k _ (λ c. inr (refl, refl, refl)) r s

step-asks :
    (d : PaymentCycle) (es : List Ledger)
    → is_open d.status ≡ true
    → Step (viewed none es) (viewed (some d) es)
step-asks d [] q = rw q asks
step-asks d (e ∷ es) q = strays

-- A row that is written where there is none, and waits.
pub insert-Steps :
    (k r : ℕ) (d : PaymentCycle) (t : Table PaymentCycle) (es : List Ledger)
    → lookup k t ≡ none
    → is_open d.status ≡ true
    → Steps (viewed (lookup r t) es) (viewed (lookup r (insert k d t)) es)
insert-Steps k r d t es e q = elim (Bool-cases (r == k)) [
  | inl h ↦
      let f : lookup r t ≡ none = ground arith in
      rw (lookup-insert r k d t, h, f) (one (step-asks d es q))
  | inr h ↦ rw (lookup-insert r k d t, h) ends
]

-- A request opens a cycle under a reference that has none.
pub open_cycle-Refines :
    (p : PaymentProvider) (k u : ℕ) (x : ℤ) (c : Currency) → Refines (open_cycle p k u x c)
unfolding open_cycle view
open_cycle-Refines p k u x c r s = elim (Option-cases (lookup k s.cycles)) [
  | inr (d, e) ↦ rw e ends
  | inl e ↦ rw e (insert-Steps k r _ s.cycles (credits r s.books.ledger) e refl)
]

pub create_with-Refines : (a : Option Adapter) (k : ℕ) (x : ℤ) → Refines (create_with a k x)
create_with-Refines none k x = raise-Refines ⊤ bad_request
create_with-Refines (some p) k x = elim (Bool-cases p.check_status) [
  | inl h ↦ rw h (
      bind-Refines (called (p.create_payment k x)) (attach_provider_ref k)
        (called-Refines (p.create_payment k x)) (attach_provider_ref-Refines k))
  | inr h ↦ rw h (raise-Refines ⊤ bad_request)
]

pub trace-Refines :
    (p : PaymentProvider) (k : ℕ) (t : TraceStep) (o : TraceOutcome) (i : Option ℕ) (e : ℕ)
    → Refines (trace p k t o i e)
unfolding view
trace-Refines p k t o i e r s = ends
