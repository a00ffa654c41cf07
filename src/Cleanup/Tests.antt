-- ===== src/Cleanup/Tests.antt =====
-- A night of the deletion of old rows.
use iron_loot.Common.{◌*◌, ◌≡◌, refl, sym, ap, false, some, [], ◌∷◌, arith, pos}
use iron_loot.Exec.{ok}
use iron_loot.Payments.Rows as Ledger
use iron_loot.Payments.Rows.{unset, PaymentProvider, WebhookStatus, WebhookResult}
use iron_loot.Payments.Credit.{credit_once}
use iron_loot.Cleanup.{
  day_ms, ProcessedWebhookEvent, Db, retention_days, days_before, clean_old_logs,
}
use iron_loot.Cleanup.Laws.{payments, is_recorded_since, clean_old_logs-credit_once}

abbrev recorded : ProcessedWebhookEvent
recorded = record { provider = PaymentProvider.stripe; payment_id = 7; processed_at = 80 * day_ms }

abbrev old : ProcessedWebhookEvent
old = record { provider = PaymentProvider.stripe; payment_id = 6; processed_at = 60 * day_ms }

-- Logs are kept for three days.
abbrev db : Db
db = record {
  audit_events = 80 * day_ms ∷ 99 * day_ms ∷ [];
  request_logs = [];
  processed_webhook_events = old ∷ recorded ∷ [];
  payment_cycle_events = [];
  fails = λ t. false;
  log_retention_days = some (pos 3);
  now = 100 * day_ms;
}

cleaned_events : (clean_old_logs db).1.processed_webhook_events ≡ recorded ∷ []
unfolding clean_old_logs retention_days days_before
cleaned_events = refl

cleaned_audit : (clean_old_logs db).1.audit_events ≡ 99 * day_ms ∷ []
unfolding clean_old_logs retention_days days_before
cleaned_audit = refl

abbrev told_again : WebhookResult
told_again = record {
  payment_id = 7;
  external_id = 2;
  status = WebhookStatus.completed;
  amount = some (pos 500);
}

abbrev ledger : Ledger.Db
ledger = record {
  cycles = [];
  events = [];
  payments = [];
  refunds = [];
  processed = (PaymentProvider.stripe, 7) ∷ [];
  outages = [];
  payment_expiration_hours = unset;
  books = record { wallets = []; ledger = []; now = 100 };
}

clean_old_logs-credit_once_example :
    credit_once PaymentProvider.stripe told_again 1 (pos 500) ledger ≡ (ok tt, ledger)
unfolding payments is_recorded_since
clean_old_logs-credit_once_example =
    clean_old_logs-credit_once db ledger PaymentProvider.stripe told_again 1 (80 * day_ms) (pos 500)
      (sym (ap payments cleaned_events)) refl (omega arith) refl
