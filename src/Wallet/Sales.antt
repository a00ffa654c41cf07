-- ===== src/Wallet/Sales.antt =====
-- src/api/src/modules/wallet/wallet.service.ts: what a sale moves (captureHeldFunds, releaseSettlement,
-- reversarVenta).
use iron_loot.Common.{
  ℕ, suc, ◌+◌, ◌*◌, ◌/◌, true, if◌then◌else◌, ℤ, pos, negsuc, pos_part, neg_part, sub_ℕ, ◌+ℤ◌, ◌-ℤ◌,
  ltb_ℤ, min_ℤ, max_ℤ,
}
use iron_loot.Exec.{⊤, Exec, pure, gets, transaction, raise_if, ◌>>=◌, ◌>>◌, insufficient_balance}
use iron_loot.Wallet.Rows.{
  Wallet, LedgerType, ReferenceType, Books, asegurar_monedero, bloquear_monedero, require_wallet,
  ledger_create, wallet_update, entry,
}

abbrev now : Exec Books ℕ
now = gets (λ s. s.now)

-- What a column of type Decimal(12, 2) makes of a value in ten-thousandths of a cent: the nearest
-- cent, a half away from zero.
unfoldable pub round_cents : ℤ → ℤ
round_cents (pos n) = pos ((n + 5000) / 10000)
round_cents (negsuc n) = sub_ℕ 0 ((suc n + 5000) / 10000)

-- The fee of a sale, in ten-thousandths of a cent: the rate is in hundredths of a percent.
abbrev pub exact_fee : ℕ → ℕ → ℕ
exact_fee amount rate = amount * rate

-- `pending + (amount - fee)`, before it is stored.
abbrev pub exact_pending : ℤ → ℕ → ℕ → ℤ
exact_pending pending amount rate =
    sub_ℕ (10000 * (pos_part pending + amount)) (10000 * neg_part pending + exact_fee amount rate)

-- The body of `captureHeldFunds`, which runs in the caller's transaction if there is one. The locks
-- on both wallets change no row.
unfoldable pub capture_run : ℕ → ℕ → ℕ → ℕ → ℕ → Exec Books ⊤
unfolding round_cents
capture_run buyer seller amount reference rate = do
  bloquear_monedero buyer
  bloquear_monedero seller
  b ← require_wallet buyer
  raise_if (ltb_ℤ b.held_funds (pos amount)) insufficient_balance
  at ← now
  ledger_create (
      entry buyer LedgerType.debit_order (pos amount) b.balance b.balance reference
        ReferenceType.order at)
  wallet_update buyer (record b { held_funds = b.held_funds -ℤ pos amount })
  s ← require_wallet seller
  ledger_create (
      entry seller LedgerType.credit_sale (pos amount) s.balance s.balance reference
        ReferenceType.order at)
  ledger_create (
      entry seller LedgerType.fee_platform (round_cents (pos (exact_fee amount rate))) s.balance
        s.balance reference ReferenceType.fee at)
  wallet_update seller (record s {
    pending_balance = round_cents (exact_pending s.pending_balance amount rate);
    is_active = true;
  })

unfoldable pub capture_held_funds : ℕ → ℕ → ℕ → ℕ → ℕ → Exec Books ⊤
capture_held_funds buyer seller amount reference rate = do
  asegurar_monedero seller true
  transaction (capture_run buyer seller amount reference rate)

release_wallet : ℕ → ℤ → ℕ → Wallet → Exec Books ⊤
release_wallet seller amount reference w = do
  at ← now
  let after = w.balance +ℤ amount
  ledger_create (
      entry seller LedgerType.settlement_release amount w.balance after reference
        ReferenceType.order at)
  wallet_update seller (record w {
    balance = after;
    pending_balance = w.pending_balance -ℤ amount;
    is_active = true;
  })

-- The body of `releaseSettlement`: with less than `amount` pending it returns and writes nothing.
unfoldable pub release_settlement_run : ℕ → ℤ → ℕ → Exec Books ⊤
unfolding release_wallet
release_settlement_run seller amount reference = do
  w ← require_wallet seller
  if ltb_ℤ w.pending_balance amount then pure tt else release_wallet seller amount reference w

unfoldable pub release_settlement : ℕ → ℤ → ℕ → Exec Books ⊤
release_settlement seller amount reference =
    transaction (release_settlement_run seller amount reference)

pub record Reversal : Type 0 where
  pub tomado_de_retenido : ℤ
  pub tomado_de_disponible : ℤ
  pub descubierto : ℤ

-- Where the amount is taken from: what is pending first, then what is available, then debt.
unfoldable pub split_reversal : Wallet → ℤ → Reversal
split_reversal seller total =
    let de_retenido = min_ℤ seller.pending_balance total in
    let restante = total -ℤ de_retenido in
    let de_disponible = max_ℤ (pos 0) (min_ℤ seller.balance restante) in
    record {
      tomado_de_retenido = de_retenido;
      tomado_de_disponible = de_disponible;
      descubierto = restante -ℤ de_disponible;
    }

-- The body of `reversarVenta`. Both wallets are read before either is written.
unfoldable pub reversar_run : ℕ → ℕ → ℤ → ℕ → Exec Books Reversal
unfolding split_reversal
reversar_run buyer seller total reference = do
  bloquear_monedero buyer
  bloquear_monedero seller
  b ← require_wallet buyer
  s ← require_wallet seller
  at ← now
  let split = split_reversal s total
  let seller_after = s.balance -ℤ (total -ℤ split.tomado_de_retenido)
  ledger_create (
      entry seller LedgerType.adjustment total s.balance seller_after reference
        ReferenceType.dispute_reversal at)
  wallet_update seller (record s {
    balance = seller_after;
    pending_balance = s.pending_balance -ℤ split.tomado_de_retenido;
  })
  let buyer_after = b.balance +ℤ total
  ledger_create (
      entry buyer LedgerType.refund total b.balance buyer_after reference
        ReferenceType.dispute_refund at)
  wallet_update buyer (record b { balance = buyer_after; is_active = true })
  pure split

unfoldable pub reversar_venta : ℕ → ℕ → ℤ → ℕ → Exec Books Reversal
reversar_venta buyer seller amount reference = do
  asegurar_monedero buyer true
  asegurar_monedero seller true
  transaction (reversar_run buyer seller amount reference)
