-- ===== src/Payments/Checks.antt =====
-- The checks of open cycles, in src/api/src/modules/payments/payment-cycle.service.ts: which are due, and
-- when they end.
use iron_loot.Common.{
  ℕ, zero, suc, ◌+◌, ◌*◌, Bool, false, Option, none, some, List, [], ◌∷◌, ltb, leb, if◌then◌else◌,
  select,
}
use iron_loot.Exec.{⊤, Exec, gets, ◌>>=◌}
use iron_loot.Table.{Table}
use iron_loot.Payments.Rows.{
  PaymentCycleStatus, AnomalyReason, PaymentCycle, EnvNumber, unset, not_a_number, whole, Db, now,
  cycle_update,
}

abbrev is_due : ℕ → ℕ × PaymentCycle → Bool
is_due at (reference, c) = elim c.status [
  | PaymentCycleStatus.requested ↦ elim c.next_check_at [ none ↦ false | some k ↦ leb k at ]
  | _ ↦ false
]

abbrev check_time : ℕ × PaymentCycle → ℕ
check_time (reference, c) = elim c.next_check_at [ none ↦ 0 | some k ↦ k ]

-- `orderBy: { nextCheckAt: 'asc' }`
abbrev place : ℕ × PaymentCycle → Table PaymentCycle → Table PaymentCycle
place x [] = x ∷ []
place x (y ∷ ys) = if leb (check_time x) (check_time y) then x ∷ y ∷ ys else y ∷ place x ys

abbrev by_check_time : Table PaymentCycle → Table PaymentCycle
by_check_time [] = []
by_check_time (x ∷ xs) = place x (by_check_time xs)

abbrev take_rows : ℕ → Table PaymentCycle → Table PaymentCycle
take_rows zero xs = []
take_rows (suc n) [] = []
take_rows (suc n) (x ∷ xs) = x ∷ take_rows n xs

unfoldable pub due_for_check : ℕ → Exec Db (Table PaymentCycle)
due_for_check limit =
    gets (λ s. take_rows limit (by_check_time (select (is_due s.books.now) s.cycles)))

-- `Number(process.env.PAYMENT_EXPIRATION_HOURS || '72')`; what is not a number compares as false.
abbrev pub expiration_hours : EnvNumber → Option ℕ
expiration_hours unset = some 72
expiration_hours not_a_number = none
expiration_hours (whole n) = some n

unfoldable pub is_expired : EnvNumber → ℕ → PaymentCycle → Bool
is_expired setting at c = elim (expiration_hours setting) [
  | none ↦ false
  | some hours ↦ ltb (c.requested_at + hours * 3600000) at
]

unfoldable pub expire : ℕ → Exec Db ⊤
expire cycle_id = cycle_update cycle_id (λ c. record c {
  status = PaymentCycleStatus.expired;
  next_check_at = none;
  anomaly_reason = some AnomalyReason.unresolved;
})

abbrev check_backoff_ms : List ℕ
check_backoff_ms = 60000 ∷ 300000 ∷ 900000 ∷ 3600000 ∷ 21600000 ∷ []

abbrev check_backoff_tail_ms : ℕ
check_backoff_tail_ms = 43200000

abbrev element : ℕ → List ℕ → ℕ → ℕ
element k [] otherwise = otherwise
element zero (x ∷ xs) otherwise = x
element (suc k) (x ∷ xs) otherwise = element k xs otherwise

-- `CHECK_BACKOFF_MS[checkCount] ?? CHECK_BACKOFF_TAIL_MS`
unfoldable pub check_backoff : ℕ → ℕ
check_backoff check_count = element check_count check_backoff_ms check_backoff_tail_ms

-- The delay comes from the row that was read, the increment from the row as it is.
unfoldable pub schedule_next_check : ℕ → ℕ → Exec Db ⊤
schedule_next_check cycle_id check_count = do
  at ← now
  cycle_update cycle_id (λ c. record c {
    check_count = c.check_count + 1;
    next_check_at = some (at + check_backoff check_count);
  })
