-- ===== src/Payments/Schedule.antt =====
-- How often src/api/src/modules/payments asks the provider about an open request.
use iron_loot.Common.{ℕ, zero, suc, ◌+◌, ◌*◌, ◌<◌, ◌≤◌, ◌≡◌, Option, none, some, arith, ℤ}
use iron_loot.Table.{lookup, lookup-insert_self}
use iron_loot.Payments.Rows.{PaymentProvider, PaymentCycleStatus, PaymentCycle, Currency, Db}
use iron_loot.Payments.Cycle.{open_cycle}
use iron_loot.Payments.Checks.{check_backoff}

-- The minutes from a request, at the least, to its check after `n` others.
unfoldable pub first_minute : ℕ → ℕ
first_minute zero = 1
first_minute (suc zero) = 2
first_minute (suc (suc zero)) = 7
first_minute (suc (suc (suc zero))) = 22
first_minute (suc (suc (suc (suc zero)))) = 82
first_minute (suc (suc (suc (suc (suc n))))) = 442 + 12 * 60 * n

abbrev pub total_delay : ℕ → ℕ
total_delay n = first_minute n * 60000

-- The next check of a cycle comes no earlier than the delays allow, and at most `n` were made.
abbrev pub DueFrom : ℕ → Option ℕ → Type 0
DueFrom t none = Unit
DueFrom t (some d) = t ≤ d

pub record IsPaced (n : ℕ) (c : PaymentCycle) : Type 0 where
  pub spaced : DueFrom (c.requested_at + total_delay c.check_count) c.next_check_at
  pub few : c.check_count ≤ n

-- Eleven checks and the first take longer than the three days after which a request is over.
pub eleven : 72 * 3600000 < total_delay 11
unfolding first_minute
eleven = omega arith

abbrev rescheduled : ℕ → PaymentCycle → PaymentCycle
rescheduled at c = record c {
  check_count = c.check_count + 1;
  next_check_at = some (at + check_backoff c.check_count);
}

-- A request starts as it should.
pub open_cycle-IsPaced :
    (n : ℕ) (p : PaymentProvider) (k u : ℕ) (x : ℤ) (cur : Currency) (s : Db)
    → lookup k s.cycles ≡ none
    → (c : PaymentCycle) × (lookup k (open_cycle p k u x cur s).1.cycles ≡ some c) × IsPaced n c
unfolding open_cycle first_minute
open_cycle-IsPaced n p k u x cur s e = (
  record {
    provider = p;
    user_id = u;
    amount = x;
    currency = cur;
    provider_ref = none;
    status = PaymentCycleStatus.requested;
    canonical_payment_id = none;
    anomaly_reason = none;
    requested_at = s.books.now;
    responded_at = none;
    settled_at = none;
    next_check_at = some (s.books.now + 60000);
    check_count = 0;
  },
  rw e (lookup-insert_self k _ s.cycles),
  record { spaced = omega arith; few = omega arith },
)
