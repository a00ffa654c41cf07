-- ===== src/Payments/Rows.antt =====
-- The rows that src/api/src/modules/payments keeps (models PaymentCycle, PaymentCycleEvent, Payment,
-- RefundRequest and ProcessedWebhookEvent of src/api/prisma/schema.prisma), over the wallets' books.
-- Amounts are in cents, times in milliseconds. A cycle is named by its reference, which is unique.
use iron_loot.Common.{
  ℕ, ◌+◌, ◌*◌, ◌/◌, ◌%◌, Bool, true, false, Option, none, some, List, ◌∷◌, ◌==◌, if◌then◌else◌, ℤ,
}
use iron_loot.Exec.{ok, err, ⊤, Exec, gets, modify, record_missing}
use iron_loot.Table.{Table, lookup, insert}
use iron_loot.Wallet.Rows.{Books}

pub data PaymentProvider : Type 0 where
  mercado_pago paypal stripe hey_banco : PaymentProvider

abbrev pub same_provider : PaymentProvider → PaymentProvider → Bool
same_provider PaymentProvider.mercado_pago PaymentProvider.mercado_pago = true
same_provider PaymentProvider.paypal PaymentProvider.paypal = true
same_provider PaymentProvider.stripe PaymentProvider.stripe = true
same_provider PaymentProvider.hey_banco PaymentProvider.hey_banco = true
same_provider _ _ = false

-- `WebhookResult.status`.
pub data WebhookStatus : Type 0 where
  pending completed failed refunded : WebhookStatus

-- What a provider says of a payment. The empty `paymentId` is 0; the amount may be missing.
pub record WebhookResult : Type 0 where
  pub payment_id : ℕ
  pub external_id : ℕ
  pub status : WebhookStatus
  pub amount : Option ℤ

pub data Currency : Type 0 where
  mxn : Currency
  foreign : ℕ → Currency

abbrev pub platform_currency : Currency
platform_currency = mxn

abbrev pub is_platform_currency : Currency → Bool
is_platform_currency mxn = true
is_platform_currency (foreign _) = false

pub data PaymentCycleStatus : Type 0 where
  requested confirmed settled failed anomaly expired : PaymentCycleStatus

-- The texts that `anomalyReason` holds, by what they say.
pub data AnomalyReason : Type 0 where
  other_currency other_amount other_user other_payment unresolved : AnomalyReason

pub record PaymentCycle : Type 0 where
  pub provider : PaymentProvider
  pub user_id : ℕ
  pub amount : ℤ
  pub currency : Currency
  pub provider_ref : Option ℕ
  pub status : PaymentCycleStatus
  pub canonical_payment_id : Option ℕ
  pub anomaly_reason : Option AnomalyReason
  pub requested_at : ℕ
  pub responded_at : Option ℕ
  pub settled_at : Option ℕ
  pub next_check_at : Option ℕ
  pub check_count : ℕ

pub data CycleOutcome : Type 0 where
  processed duplicate cancelled rejected anomaly orphan : CycleOutcome

pub data TraceStep : Type 0 where
  deposit_requested cycle_decision wallet_credited poll_attempt cycle_expired : TraceStep

pub data TraceOutcome : Type 0 where
  fine failed : TraceOutcome
  decided : CycleOutcome → TraceOutcome

pub record PaymentCycleEvent : Type 0 where
  pub cycle_id : Option ℕ
  pub provider : PaymentProvider
  pub external_id : ℕ
  pub reference : ℕ
  pub step : TraceStep
  pub outcome : TraceOutcome

pub data PaymentStatus : Type 0 where
  completed failed : PaymentStatus

pub record Payment : Type 0 where
  pub provider : PaymentProvider
  pub status : PaymentStatus
  pub amount : ℤ
  pub currency : Currency
  pub external_id : ℕ

-- A refund request that the cycle raises, still to be carried out.
pub record ChargeRefund : Type 0 where
  pub amount : ℤ
  pub currency : Currency
  pub reason : AnomalyReason
  pub payment_reference : ℕ

-- What `process.env` holds where a number is expected; numbers are whole and not negative.
pub data EnvNumber : Type 0 where
  unset not_a_number : EnvNumber
  whole : ℕ → EnvNumber

-- The cycles and the payments by their reference, the newest event first, and, for each attempt to
-- credit a wallet to come, whether the database fails it.
pub record Db : Type 0 where
  pub cycles : Table PaymentCycle
  pub events : List PaymentCycleEvent
  pub payments : Table Payment
  pub refunds : List ChargeRefund
  pub processed : List (PaymentProvider × ℕ)
  pub outages : List Bool
  pub payment_expiration_hours : EnvNumber
  pub books : Books

abbrev pub now : Exec Db ℕ
now = gets (λ s. s.books.now)

-- A user's identifier is a UUID, 128 bits.
abbrev pub uuid_size : ℕ
uuid_size = 340282366920938463463374607431768211456

-- The reference `DEP-<user>-<timestamp>` as a number; every other text is an odd one.
unfoldable pub deposit_reference : ℕ → ℕ → ℕ
deposit_reference user timestamp = 2 * (user % uuid_size + uuid_size * timestamp)

-- What `/^DEP-(.+)-\d+$/` captures of a reference.
unfoldable pub referenced_user : ℕ → Option ℕ
referenced_user reference = if reference % 2 == 0 then some (reference / 2 % uuid_size) else none

abbrev pub find_cycle : ℕ → Exec Db (Option PaymentCycle)
find_cycle reference = gets (λ s. lookup reference s.cycles)

-- `paymentCycle.update`, which throws without a row.
unfoldable pub cycle_update : ℕ → (PaymentCycle → PaymentCycle) → Exec Db ⊤
cycle_update reference data_of s = elim (lookup reference s.cycles) [
  | none ↦ (err record_missing, s)
  | some c ↦ (ok tt, record s { cycles = insert reference (data_of c) s.cycles })
]

abbrev pub event_create : PaymentCycleEvent → Exec Db ⊤
event_create e = modify (λ s. record s { events = e ∷ s.events })
