-- ===== src/Cleanup.antt =====
-- src/api/src/modules/system-cleanup/system-cleanup.service.ts: old rows are deleted every night.
pub mod Laws
mod Tests
use iron_loot.Common.{
  ℕ, zero, suc, ◌+◌, ◌-◌, ◌*◌, ◌/◌, ◌%◌, ◌≤◌, ◌<◌, ◌≡◌, refl, sym, ap, ◌∙◌, ◌≢◌, ◌⊎◌, inl, inr,
  Bool, true, false, ◌&&◌, ◌||◌, not, Option, none, some, List, [], ◌∷◌, ◌++◌, map, arith, ltb, leb,
  ◌==◌, if◌then◌else◌, ==_iff, Bool-cases, Option-cases, ℤ, pos, negsuc, pos_part, neg_part, sub_ℕ,
  ◌+ℤ◌, ◌-ℤ◌, ◌≤ℤ◌, ◌<ℤ◌, ltb_ℤ, leb_ℤ, min_ℤ, max_ℤ, +ℤ_parts, -ℤ_parts, eq_of_parts, int_laws,
  All, length, select, find_first,
}
use iron_loot.Exec.{
  Error, Result, ok, err, ⊤, Exec, pure, raise, gets, or_raise, settle, transaction, recover, catch,
  raise_if, modify, continue, ◌>>=◌, ◌>>◌, attempt, not_found, bad_request, forbidden, validation,
  insufficient_balance, auction_not_found, auction_not_active, bid_too_low, bid_on_own_auction,
  order_not_found, user_not_found, unique_violation, record_missing, outcome_cases,
  connection_failed, invalid_credentials, email_already_exists, user_not_verified, user_suspended,
  user_banned, token_expired, token_invalid, conflict,
}
use iron_loot.Table.{
  Table, lookup, insert, lookup-insert, lookup-insert_self, lookup-insert_ne, find_first-insert,
  find_first_holds,
}
use iron_loot.Payments.Rows.{PaymentProvider}

abbrev pub webhook_min_retention_days : ℕ
webhook_min_retention_days = 30

abbrev pub day_ms : ℕ
day_ms = 24 * 60 * 60 * 1000

pub data Purged : Type 0 where
  audit_events request_logs processed_webhook_events payment_cycle_events : Purged

pub record ProcessedWebhookEvent : Type 0 where
  pub provider : PaymentProvider
  pub payment_id : ℕ
  pub processed_at : ℕ

-- The tables by the times of their rows, the ones that the database fails to purge, and the setting
-- `LOG_RETENTION_DAYS` in whole days, `none` where it is no number.
pub record Db : Type 0 where
  pub audit_events : List ℕ
  pub request_logs : List ℕ
  pub processed_webhook_events : List ProcessedWebhookEvent
  pub payment_cycle_events : List ℕ
  pub fails : Purged → Bool
  pub log_retention_days : Option ℤ
  pub now : ℕ

-- `Number(process.env.LOG_RETENTION_DAYS) || 90`
unfoldable pub retention_days : Option ℤ → ℤ
retention_days none = pos 90
retention_days (some (pos d)) = if d == 0 then pos 90 else pos d
retention_days (some (negsuc d)) = negsuc d

abbrev pub webhook_days : ℤ → ℤ
webhook_days d = max_ℤ d (pos webhook_min_retention_days)

-- The time that many days ago.
unfoldable pub days_before : ℕ → ℤ → ℤ
days_before at (pos d) = sub_ℕ at (d * day_ms)
days_before at (negsuc d) = pos (at + suc d * day_ms)

abbrev pub is_kept : ℤ → ℕ → Bool
is_kept date timestamp = not (ltb_ℤ (pos timestamp) date)

abbrev pub is_kept_event : ℤ → ProcessedWebhookEvent → Bool
is_kept_event date e = is_kept date e.processed_at

-- An exception is logged.
abbrev purge : Purged → Exec Db ⊤ → Exec Db ⊤
purge what run = attempt do down ← gets (λ s. s.fails what); raise_if down connection_failed; run

unfoldable pub clean_old_logs : Exec Db ⊤
clean_old_logs = do
  at ← gets (λ s. s.now)
  days ← gets (λ s. retention_days s.log_retention_days)
  let retention_date = days_before at days
  let webhook_date = days_before at (webhook_days days)
  purge Purged.audit_events
      (modify (λ s. record s { audit_events = select (is_kept retention_date) s.audit_events }))
  purge Purged.request_logs
      (modify (λ s. record s { request_logs = select (is_kept retention_date) s.request_logs }))
  purge Purged.processed_webhook_events (
      modify (λ s. record s {
        processed_webhook_events = select (is_kept_event webhook_date) s.processed_webhook_events;
      }))
  purge Purged.payment_cycle_events (
      modify (λ s. record s {
        payment_cycle_events = select (is_kept webhook_date) s.payment_cycle_events;
      }))
