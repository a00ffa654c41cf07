-- ===== src/Cleanup/Laws.antt =====
-- The nightly deletion against the payments that are on record.
use iron_loot.Common.{
  ℕ, ◌+◌, ◌*◌, ◌≤◌, ◌≡◌, ◌⊎◌, inl, inr, Bool, true, false, ◌&&◌, ◌||◌, List, [], ◌∷◌, arith, leb,
  ◌==◌, Bool-cases, ℤ, pos, negsuc, sub_ℕ, ◌≤ℤ◌, select,
}
use iron_loot.Exec.{ok}
use iron_loot.Payments.Rows as Ledger
use iron_loot.Payments.Rows.{PaymentProvider, same_provider, WebhookResult}
use iron_loot.Payments.Credit.{is_processed, credit_once}
use iron_loot.Cleanup.{
  webhook_min_retention_days, day_ms, Purged, ProcessedWebhookEvent, Db, retention_days,
  days_before, is_kept_event, webhook_days, clean_old_logs,
}

-- The payments on record.
unfoldable pub payments : List ProcessedWebhookEvent → List (PaymentProvider × ℕ)
payments [] = []
payments (e ∷ es) = (e.provider, e.payment_id) ∷ payments es

-- The payment was put on record at this time or after it.
unfoldable pub is_recorded_since : PaymentProvider → ℕ → ℕ → List ProcessedWebhookEvent → Bool
is_recorded_since p k since [] = false
is_recorded_since p k since (e ∷ es) =
    (same_provider p e.provider && (k == e.payment_id) && leb since e.processed_at)
    || is_recorded_since p k since es

abbrev kept : ℤ → List ProcessedWebhookEvent → List ProcessedWebhookEvent
kept date es = select (is_kept_event date) es

is_processed-kept :
    (p : PaymentProvider) (k since : ℕ) (date : ℤ) (es : List ProcessedWebhookEvent)
    → date ≤ℤ pos since
    → is_recorded_since p k since es ≡ true
    → is_processed p k (payments (kept date es)) ≡ true
unfolding payments is_recorded_since is_processed
is_processed-kept p k since date [] d h = absurd (ground arith)
is_processed-kept p k since date (e ∷ es) d h =
    elim (Bool-cases
      (same_provider p e.provider && (k == e.payment_id) && leb since e.processed_at)) [
        | inl q ↦ ground arith
        | inr q ↦
            let later = is_processed-kept p k since date es d (ground arith) in
            elim (Bool-cases (is_kept_event date e)) [ inl t ↦ ground arith | inr t ↦ rw t later ]
      ]

-- Never later than thirty days ago, whatever is configured.
webhook_date-le :
    (at : ℕ) (days : ℤ)
    → days_before at (webhook_days days) ≤ℤ sub_ℕ at (webhook_min_retention_days * day_ms)
unfolding days_before
webhook_date-le at (pos d) = ground arith
webhook_date-le at (negsuc d) = ground arith

clean_old_logs-events :
    (s : Db)
    → (((clean_old_logs s).1.processed_webhook_events ≡ s.processed_webhook_events)
        ⊎ ((clean_old_logs s).1.processed_webhook_events
            ≡ kept
                (days_before s.now (webhook_days (retention_days s.log_retention_days)))
                s.processed_webhook_events))
unfolding clean_old_logs
clean_old_logs-events s = elim (Bool-cases (s.fails Purged.processed_webhook_events)) [
  | inl q ↦ inl (ground arith)
  | inr q ↦ inr (ground arith)
]

all_processed :
    (p : PaymentProvider) (k since : ℕ) (es : List ProcessedWebhookEvent)
    → is_recorded_since p k since es ≡ true
    → is_processed p k (payments es) ≡ true
unfolding payments is_recorded_since is_processed
all_processed p k since [] h = absurd (ground arith)
all_processed p k since (e ∷ es) h = elim (Bool-cases (is_recorded_since p k since es)) [
  | inl q ↦ ground (arith, all_processed p k since es q)
  | inr q ↦ ground arith
]

still_processed :
    (s : Db) (p : PaymentProvider) (k since : ℕ)
    → s.now ≤ since + webhook_min_retention_days * day_ms
    → is_recorded_since p k since s.processed_webhook_events ≡ true
    → is_processed p k (payments (clean_old_logs s).1.processed_webhook_events) ≡ true
still_processed s p k since n h =
    let date = days_before s.now (webhook_days (retention_days s.log_retention_days)) in
    let early = webhook_date-le s.now (retention_days s.log_retention_days) in
    elim (clean_old_logs-events s) [
      | inl e ↦ rw e (all_processed p k since s.processed_webhook_events h)
      | inr e ↦ rw e (is_processed-kept p k since date s.processed_webhook_events (ground arith) h)
    ]

-- A payment that was put on record within the last thirty days is still on record after the nightly
-- deletion, whatever retention is configured and whatever the database fails to purge: its
-- notification, delivered once more, is not credited again and writes nothing.
pub clean_old_logs-credit_once :
    (s : Db) (ledger : Ledger.Db) (p : PaymentProvider) (result : WebhookResult) (user since : ℕ)
    (amount : ℤ)
    → ledger.processed ≡ payments (clean_old_logs s).1.processed_webhook_events
    → (result.payment_id == 0) ≡ false
    → s.now ≤ since + webhook_min_retention_days * day_ms
    → is_recorded_since p result.payment_id since s.processed_webhook_events ≡ true
    → credit_once p result user amount ledger ≡ (ok tt, ledger)
unfolding credit_once
clean_old_logs-credit_once s ledger p result user since amount e z n h =
    let known : is_processed p result.payment_id ledger.processed ≡ true =
      rw e (still_processed s p result.payment_id since n h) in
    ground arith
